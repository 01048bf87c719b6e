-- ===== src/Startup/Script.antt =====
-- src/ooops.c, `Append_Job_End_Handler_Bash`, `..._Tcsh` and `..._Zsh`: the script of a job is run
-- with commands in front that start the daemon on the first node and a client on every other node, and
-- commands behind that stop the daemon.
use ooops.Prelude.{
  ℕ, ◌*◌, ◌++◌, Bool, Option, none, some, Text, codes, ltb, ◌==◌, if◌then◌else◌, length, take,
}

-- `iShell_Type`; csh is handled as tcsh is.
pub data Shell : Type 0 where
  bash : Shell
  tcsh : Shell
  zsh : Shell

-- `szCmdPrepend`
unfoldable pub prologue : Shell → Text
prologue Shell.bash =
    codes "scontrol show hostnames $SLURM_NODELIST > /dev/shm/ooops/hostfile\n"
    ++ codes "myhostname=`hostname -s`\n"
    ++ codes "myip=`$TACC_OOOPS_BIN/get_ip`\n"
    ++ codes "$TACC_OOOPS_BIN/ooopsd -p 8888 &\n"
    ++ codes "export ooopsd_pid=$!\n"
    ++ codes "$TACC_OOOPS_BIN/msleep 100\n"
    ++ codes "while IFS= read -r line\n"
    ++ codes "do\n"
    ++ codes "  if [ \"$line\" != \"$myhostname\" ]; then\n"
    ++ codes "    ssh -q -o \"StrictHostKeyChecking no\" -n $line \"IO_LIMIT_CONFIG=$IO_LIMI"
    ++ codes "T_CONFIG LD_PRELOAD=$LD_PRELOAD date &> /dev/null ; LD_PRELOAD=\\\"\\\" OOOPS_"
    ++ codes "REPORT_T_INTERVAL=$OOOPS_REPORT_T_INTERVAL $TACC_OOOPS_BIN/ooops $myip &> /dev"
    ++ codes "/null &\" &> /dev/null &\n"
    ++ codes "  fi\n"
    ++ codes "done < \"/dev/shm/ooops/hostfile\"\n"
prologue Shell.tcsh =
    codes "scontrol show hostnames \"$SLURM_NODELIST\" > /dev/shm/ooops/hostfile\n"
    ++ codes "set myhostname=`hostname -s`\n"
    ++ codes "set myip=`$TACC_OOOPS_BIN/get_ip`\n"
    ++ codes "$TACC_OOOPS_BIN/ooopsd -p 8888 &\n"
    ++ codes "set export ooopsd_pid=$!\n"
    ++ codes "$TACC_OOOPS_BIN/msleep 100\n"
    ++ codes "foreach line ( `cat /dev/shm/ooops/hostfile`)\n"
    ++ codes "  if ($line != \"$myhostname\") then\n"
    ++ codes "   ( ssh -q -o \"StrictHostKeyChecking no\" -n $line \"env IO_LIMIT_CONFIG=$IO"
    ++ codes "_LIMIT_CONFIG LD_PRELOAD=$LD_PRELOAD date > /dev/null ; env LD_PRELOAD=\"\" OO"
    ++ codes "OPS_REPORT_T_INTERVAL=$OOOPS_REPORT_T_INTERVAL $TACC_OOOPS_BIN/ooops $myip > /"
    ++ codes "dev/null &\" > /dev/null & ) \n"
    ++ codes "  endif\n"
    ++ codes "end\n"
prologue Shell.zsh =
    codes "scontrol show hostnames $SLURM_NODELIST > /dev/shm/ooops/hostfile\n"
    ++ codes "myhostname=`hostname -s`\n"
    ++ codes "myip=`$TACC_OOOPS_BIN/get_ip`\n"
    ++ codes "$TACC_OOOPS_BIN/ooopsd -p 8888 &\n"
    ++ codes "export ooopsd_pid=$!\n"
    ++ codes "$TACC_OOOPS_BIN/msleep 100\n"
    ++ codes "for line in `cat /dev/shm/ooops/hostfile`\n"
    ++ codes "do\n"
    ++ codes "  if [ \"$line\" != \"$myhostname\" ]; then\n"
    ++ codes "    ssh -q -o \"StrictHostKeyChecking no\" -n $line \"IO_LIMIT_CONFIG=$IO_LIMI"
    ++ codes "T_CONFIG LD_PRELOAD=$LD_PRELOAD date &> /dev/null ; LD_PRELOAD=\\\"\\\" OOOPS_"
    ++ codes "REPORT_T_INTERVAL=$OOOPS_REPORT_T_INTERVAL $TACC_OOOPS_BIN/ooops $myip &> /dev"
    ++ codes "/null &\" &> /dev/null &\n"
    ++ codes "  fi\n"
    ++ codes "done\n"

-- What is printed behind the script.
unfoldable pub epilogue : Shell → Text
epilogue Shell.bash =
    codes "kill $ooopsd_pid\n"
    ++ codes "$TACC_OOOPS_BIN/msleep 200\n"
    ++ codes "if [ -f \"/dev/shm/ooops/high_io\" ]; then \n"
    ++ codes "  ml intel impi &> /dev/null \n"
    ++ codes "  mpiexec.hydra -np $SLURM_NNODES -ppn 1 -f /dev/shm/ooops/hostfile $TACC_OOOP"
    ++ codes "S_BIN/mpi_aggregator\n"
    ++ codes "fi\n"
epilogue Shell.tcsh =
    codes "kill $ooopsd_pid\n"
    ++ codes "$TACC_OOOPS_BIN/msleep 200\n"
    ++ codes "if ( -f \"/dev/shm/ooops/high_io\" ) then\n"
    ++ codes "  ml intel impi > /dev/null \n"
    ++ codes "  mpiexec.hydra -np $SLURM_NNODES -ppn 1 -f /dev/shm/ooops/hostfile $TACC_OOOP"
    ++ codes "S_BIN/mpi_aggregator\n"
    ++ codes "endif\n"
epilogue Shell.zsh =
    codes "kill $ooopsd_pid\n"
    ++ codes "$TACC_OOOPS_BIN/msleep 200\n"
    ++ codes "if [ -f \"/dev/shm/ooops/high_io\" ]; then \n"
    ++ codes "  ml intel impi &> /dev/null \n"
    ++ codes "  mpiexec.hydra -np $SLURM_NNODES -ppn 1 -f /dev/shm/ooops/hostfile $TACC_OOOP"
    ++ codes "S_BIN/mpi_aggregator\n"
    ++ codes "fi\n"

abbrev pub max_buff_size : ℕ
max_buff_size = 1024 * 1024

-- What the system answers: the text of the script where it can be opened, whether the new file can,
-- and how many bytes of the script are written.
pub record Files : Type 0 where
  pub script : Option Text
  pub can_create : Bool
  pub nbytes_written : ℕ

-- The text of the new script; `none` is the end of the process.
unfoldable pub append_job_end_handler : Shell → Files → Option Text
append_job_end_handler shell files = elim files.script [
  | none ↦ none
  | some text ↦
      let sz_file = take max_buff_size text in
      if ltb (length sz_file) 10
      then none
      else if length sz_file == max_buff_size
      then none
      else if files.can_create
      then if files.nbytes_written == length sz_file
        then some (prologue shell ++ sz_file ++ epilogue shell)
        else none
      else none
]
