-- ===== src/Agent/Process.antt =====
-- internal/agent/backup.go and restore.go: what the agent asks of the operating system, how it reports
-- its end, and `materializeKeyfile`, `exitCode`, `firstLine` and `writeTermlog`.
use pbs_k8s_operator.Base.{ℕ, String, Bool, Option, none, some, List}
use pbs_k8s_operator.Base.Text.{◌+++◌, trim_space, before_newline}
use pbs_k8s_operator.Reconcile.{Answer, answer, refused, M, pure, send, ◌>>=◌, ◌>>◌}

-- The result of a command: what it wrote, and its error with the exit code, where that has one that
-- is not negative.
pub record ClientError : Type 0 where
  pub code : Option ℕ
  pub text : String

pub record Ran : Type 0 where
  pub out : String
  pub errs : String
  pub failure : Option ClientError

-- What the termination log is to say.
pub data Report : Type 0 where
  failure : String → Report
  snapshot : String → ℕ → Report
  restored : List String → ℕ → Report
  applied : ℕ → Report

pub data Call : Type 0 where
  run : List String → List String → Call  -- the words of a command and its environment
  termlog : String → Report → Call
  print_out : Report → Call
  print_err : String → Call
  create_temp : String → Call
  write_temp : String → String → Call
  close_temp : String → Call
  remove : String → Call
  remove_all : String → Call

-- An entry that `filepath.WalkDir` visits, with its size where `Info` gives one.
pub record WalkEntry : Type 0 where
  pub unreadable : Bool
  pub is_dir : Bool
  pub size : Option ℕ

-- The operating system: the environment, the processes and the files.
pub record Os (W : Type 0) : Type 0 where
  pub getenv : String → String
  pub environ : List String
  pub hostname : W → Answer String × W
  pub run : List String → List String → W → Ran × W
  pub termlog : String → Report → W → Answer (Unit {0}) × W
  pub print : W → Unit {0} × W
  pub create_temp : String → W → Answer String × W
  pub write_temp : String → String → W → Answer (Unit {0}) × W
  pub close_temp : String → W → Answer (Unit {0}) × W
  pub remove : String → W → Unit {0} × W
  pub read_file : String → W → Answer String × W
  pub read_dir : String → W → Answer (List String) × W  -- the names of the entries
  pub remove_all : String → W → Answer (Unit {0}) × W
  pub path_join : String → String → String  -- `filepath.Join`
  pub walk_dir : String → W → List WalkEntry × W

-- `exitCode`.
unfoldable pub exit_code : ClientError → ℕ
exit_code e = elim e.code [ none ↦ 1 | some code ↦ code ]

-- `firstLine`.
unfoldable pub first_line : String → String
first_line s = before_newline (trim_space s)

module _ {W : Type 0} (os : Os W) where
  abbrev Act : Type 0 → Type 0
  Act A = M W Call A

  abbrev pub say : String → Act (Unit {0})
  say line = send (print_err line) os.print

  abbrev pub after_termlog : Answer (Unit {0}) → Act (Unit {0})
  after_termlog (answer u) = pure tt
  after_termlog (refused e) = say ("pbs-agent: write termination log: " +++ e)

  -- `writeTermlog`.
  unfoldable pub write_termlog : String → Report → Act (Unit {0})
  write_termlog path report = do
    r ← send (termlog path report) (os.termlog path report)
    after_termlog r

  -- The closure `fail`: the code that the process exits with.
  unfoldable pub fail : String → ℕ → String → Act ℕ
  fail path code message = do
    write_termlog path (failure message)
    say ("pbs-agent: " +++ message)
    pure code

  -- The end of a run that went well.
  unfoldable pub succeed : String → Report → Act ℕ
  succeed path report = do write_termlog path report; send (print_out report) os.print; pure 0

  abbrev pub on_answer : {A B : Type 0} → Answer A → (String → Act B) → (A → Act B) → Act B
  on_answer (refused e) failed k = failed e
  on_answer (answer a) failed k = k a

  abbrev pub on_run : {B : Type 0} → Option ClientError → (ClientError → Act B) → Act B → Act B
  on_run (some e) failed k = failed e
  on_run none failed k = k

  -- What a step that failed leaves of a temporary file.
  abbrev pub drop_temp : {A : Type 0} → String → String → Act (Answer A)
  drop_temp path e = do send (remove path) (os.remove path); pure (refused e)

  -- `materializeKeyfile`, for the pattern of the name; `uploadConfigMap` and `kubectlApply` make their
  -- files in the same steps.
  unfoldable pub temp_file : String → String → Act (Answer String)
  temp_file pattern content = do
    p ← send (create_temp pattern) (os.create_temp pattern)
    on_answer p (λ e. pure (refused e))
        λ path. do
          w ← send (write_temp path content) (os.write_temp path content)
          on_answer w (λ e. drop_temp path e)
              λ u. do
                c ← send (close_temp path) (os.close_temp path)
                on_answer c (λ e. drop_temp path e) λ v. pure (answer path)
