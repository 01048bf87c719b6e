-- ===== src/Tests/Places.antt =====
-- Paths, working directories and shared parameters.
use ooops.Prelude.{
  ℕ, ◌≡◌, refl, ◌⊎◌, Bool, true, false, Option, none, some, List, [], ◌∷◌, Text, codes, ℤ, pos, ltb,
  strn_eq, length, if◌then◌else◌, replicate, take, arith,
}
use ooops.FileServer.{
  Tag, Place, Getcwd, scan, tracked, check_fs_server, max_path, my_chdir, my_getcwd,
}
use ooops.FileServer.Scan.{NoTag, FirstTag, scan-Classified, check_fs_server-Classified}
use ooops.FileServer.Cwd.{InSync, Documented, answer, my_chdir-InSync, my_getcwd-eq-getcwd}
use ooops.State.{Limits, Page, State}
use ooops.Params.{publish_parameters, update_parameters}
use ooops.Params.Share.{update-publish}
use ooops.Tests.Fixed.{fixed_point}

abbrev scratch : Tag
scratch = record { name = codes "/scratch"; len = 8 }

abbrev work : Tag
work = record { name = codes "/work"; len = 5 }

abbrev no_tag : Tag
no_tag = record { name = []; len = 0 }

abbrev tags : List Tag
tags = scratch ∷ work ∷ no_tag ∷ no_tag ∷ no_tag ∷ no_tag ∷ no_tag ∷ no_tag ∷ []

abbrev pub in_work : Place
in_work = record {
  tags = tags;
  n_fs_server = 2;
  idx_fs_server = none;
  idx_fs_server_cwd = some 1;
  updated_dir = codes "/work/ab";
}

-- The system as its working directory; `getcwd` with the terminating NUL in the size.
abbrev real_getcwd : Text → Bool → ℕ → Option Text
real_getcwd k buf_null size =
    if ltb 0 size then if ltb (length k) size then some k else none else some k

abbrev real_chdir : Text → Text → ℤ × Text
real_chdir k path = (pos 0, path)

check_fs_server_runs : (check_fs_server (codes "/scratch/x") in_work).idx_fs_server ≡ some 0
unfolding check_fs_server scan strn_eq
check_fs_server_runs = refl

check_fs_server_relative : (check_fs_server (codes "x") in_work).idx_fs_server ≡ some 1
unfolding check_fs_server scan strn_eq
check_fs_server_relative = refl

check_fs_server_other : (check_fs_server (codes "/tmp/x") in_work).idx_fs_server ≡ none
unfolding check_fs_server scan strn_eq
check_fs_server_other = refl

check_fs_server-Classified_example :
    let q = check_fs_server (codes "/work/x") in_work in
    (((i : ℕ) × FirstTag (codes "/work/x") (tracked in_work) i × (q.idx_fs_server ≡ some i))
      ⊎ (NoTag (codes "/work/x") (tracked in_work) × (q.idx_fs_server ≡ none)))
    × (record q { idx_fs_server = none } ≡ in_work)
check_fs_server-Classified_example = check_fs_server-Classified (codes "/work/x") in_work

abbrev chdir_result : Option (ℤ × Text × Place)
chdir_result = my_chdir real_getcwd real_chdir (codes "/work/ab") (codes "/scratch/c") in_work

my_chdir-InSync_example :
    ((p' : Place) × (chdir_result ≡ some (pos 0, codes "/scratch/c", p'))
      × InSync real_getcwd (codes "/scratch/c") p'
      × (p'.idx_fs_server ≡ none))
    ⊎ ((chdir_result ≡ none) × (real_getcwd (codes "/scratch/c") false max_path ≡ none))
my_chdir-InSync_example =
    my_chdir-InSync real_getcwd real_chdir (codes "/work/ab") (codes "/scratch/c") in_work

real_getcwd-Documented : Documented real_getcwd (λ k. k)
real_getcwd-Documented k buf_null size h = ground arith

in_work-InSync : InSync real_getcwd (codes "/work/ab") in_work
unfolding scan strn_eq
in_work-InSync = record { dir = refl; idx = scan-Classified (codes "/work/ab") (tracked in_work) 0 }

my_getcwd-eq-getcwd_example :
    (g : Getcwd) × (my_getcwd real_getcwd true (codes "/work/ab") false 100 in_work
      ≡ some (g, in_work))
    × (answer real_getcwd g ≡ some (codes "/work/ab"))
my_getcwd-eq-getcwd_example =
    my_getcwd-eq-getcwd real_getcwd (λ k. k) (codes "/work/ab") false 100 in_work
      real_getcwd-Documented in_work-InSync (omega arith) refl

abbrev pub limit : ℕ → Limits fixed_point
limit t = record {
  threshold_open = t;
  threshold_lxstat = t;
  max_open_freq = pos 1000000000000;
  max_lxstat_freq = pos 2000000000000;
}

abbrev pub process : State fixed_point
process = record {
  place = in_work;
  limits = limit 100 ∷ limit 200 ∷ [];
  freq = pos 2600000000;
  active = true;
  shm_ready = true;
  t_updated = 7;
  tid = none;
  started = record { open_at = 0; stat_at = 0 } ∷ record { open_at = 0; stat_at = 0 } ∷ [];
  opens = [];
  stats = [];
}

abbrev newcomer : State fixed_point
newcomer = record process { active = false; limits = limit 0 ∷ limit 0 ∷ [] }

abbrev pub new_page : Page fixed_point
new_page = record {
  t_updated = 0;
  disabled = 0;
  ready = 0;
  freq = pos 0;
  tags = replicate 8 no_tag;
  limits = replicate 8 (limit 0);
}

update-publish_example :
    let q =
      update_parameters fixed_point
        (publish_parameters fixed_point 9 process new_page).0
        newcomer in
    (q.active ≡ true)
    × (q.place.n_fs_server ≡ 2)
    × (take 2 q.limits ≡ limit 100 ∷ limit 200 ∷ [])
    × (q.freq ≡ pos 2600000000)
    × (q.t_updated ≡ 9)
    × ((name : Text) → scan name (tracked q.place) 0 ≡ scan name (tracked in_work) 0)
update-publish_example =
    update-publish fixed_point 9 process newcomer new_page ((λ e. cc), ((λ e. cc), tt))
      (refl, (refl, (refl, (refl, (refl, (refl, tt)))))) (omega arith) (omega arith)
      (record { tags = omega arith; limits = omega arith })
      (record { tags = omega arith; limits = omega arith })
