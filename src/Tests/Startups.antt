-- ===== src/Tests/Startups.antt =====
-- The shell of a batch job at its start.
use ooops.Prelude.{◌≡◌, refl, true, none, some, [], ◌∷◌, ◌++◌, Text, codes, length, str_eq, arith}
use ooops.Startup.{
  get_exe_name_and_cmdline, shell_of, job_prefix, cut_domain, is_compute_node, init, left_alone,
}
use ooops.Startup.Script.{Shell, Files, prologue, epilogue}
use ooops.Startup.Wrap.{Readable, get_exe_name_and_cmdline-job}

abbrev job_script : Text
job_script = codes "#!/bin/bash\nhostname\n"

abbrev job_files : Files
job_files = record {
  script = some job_script;
  can_create = true;
  nbytes_written = length job_script;
}

job_files-Readable : Readable job_script job_files
job_files-Readable = record {
  script = refl;
  can_create = refl;
  written = refl;
  least = omega arith;
  most = omega arith;
}

is_bash : shell_of (codes "bash") ≡ some Shell.bash
unfolding shell_of str_eq
is_bash = refl

get_exe_name_and_cmdline-job_example :
    get_exe_name_and_cmdline
      (some (
        codes "/bin/bash"
        ++ 0 ∷ ((job_prefix ++ codes "00042" ++ b'/' ∷ codes "slurm_script") ++ 0 ∷ [])))
      true
      job_files
    ≡ some (record {
      name = codes "bash";
      shell_type = some Shell.bash;
      wrapped = some (record {
        name_new = codes "/dev/shm/ooops/" ++ codes "slurm_script";
        text = prologue Shell.bash ++ job_script ++ epilogue Shell.bash;
      });
    })
get_exe_name_and_cmdline-job_example =
    get_exe_name_and_cmdline-job (codes "/bin") (codes "bash") (codes "00042")
      (codes "slurm_script") [] job_script Shell.bash job_files refl (ground arith) (ground arith)
      is_bash (ground arith) (ground arith) (ground arith) (omega arith) (omega arith)
      job_files-Readable

-- The name of a node is cut before it is tested.
compute_node : is_compute_node (cut_domain (codes "c401-103.stampede2.tacc.utexas.edu")) ≡ true
unfolding cut_domain
compute_node = refl

login_node : init (codes "login1.stampede2.tacc.utexas.edu") none true job_files none ≡ left_alone
unfolding init
login_node = refl
