-- ===== src/N3000/Memory.antt =====
-- A node in memory: its files, the commands that were run on it, and a card in it.
use openshift_operator.Base.{
  ℕ, ◌≡◌, ◌≢◌, refl, arith, Bool, false, String, List, [], ◌∷◌, ◌++◌, ◌==◌, eq_iff, none, atoi,
  itoa, ltb, Floats, not_exist, ok, err, pure, if◌then◌else◌,
}
use openshift_operator.N3000.{Node}
use openshift_operator.N3000.Images.Laws.{Files}
use openshift_operator.N3000.Images.Keeping.{FilesKeep}
use openshift_operator.N3000.Program.Commands.{Command, Logs}

pub record Store : Type 0 where
  pub files : String → String
  pub commands : List Command
  pub cordoned : Bool
  pub drained : Bool

abbrev pub empty_store : Store
empty_store = record { files = λ p. ""; commands = []; cordoned = false; drained = false }

abbrev pub write_to : String → String → Store → Store
write_to p content s = record s { files = λ q. if p == q then content else s.files q }

-- Whole numbers stand for floating-point numbers.
abbrev pub whole_floats : Floats
whole_floats = record {
  Float = ℕ;
  parse_float = λ s. (atoi s, none);
  lt = ltb;
  whole = λ n. n;
  minus_one = 0;
  format = itoa;
}

abbrev pub card_info : String
card_info = "PCIe s:b:d.f : 0000:1b:00.0\n(12) Die : 70 C"

-- The answers to the commands that ask.
unfoldable pub answer : String → String
answer name =
    if name == "fpgainfo"
    then card_info
    else if name == "fpgadiag"
    then "eth0 00:00:00:00:00:01"
    else ""

-- Each file that is opened, made or removed can be; none is there before it is written, and each
-- address can be downloaded, with the text "image".
abbrev pub memory : Node
memory = record {
  State = Store;
  floats = whole_floats;
  getenv = λ name. "";
  combined_output = λ name args. pure (answer name);
  run = λ name args s. (ok tt, record s { commands = s.commands ++ ((name, args) ∷ []) });
  stat = λ p s. (if s.files p == "" then err (not_exist p) else ok tt, s);
  mkdir_all = λ p. pure tt;
  create = λ p s. (ok tt, write_to p "" s);
  remove = λ p s. (ok tt, write_to p "" s);
  open_file = λ p. pure tt;
  is_symlink = λ p. pure false;
  read_all = λ p s. (ok (s.files p), s);
  md5_hex = λ content. content;
  http_get = λ url. pure (record { status_code = 200; status = "200 OK"; body = "image" });
  copy_body = λ p body s. (ok tt, write_to p body s);
  read_csv = λ text. ok [];
  size = pure 0;
  tokens = λ s. [];
}

write_to-other :
    (p q content : String) (s : Store) → p ≢ q → (write_to p content s).files q ≡ s.files q
write_to-other p q content s ne = ground (arith, eq_iff p q, ne)

read_files : (p x : String) (s : Store) → (memory.read_all p s).0 ≡ ok x → x ≡ s.files p
read_files p x s h = ground (arith, h)

unfoldable pub memory_files : Files memory
unfolding read_files write_to-other
memory_files = record {
  contents = λ p s. s.files p;
  read_ok = read_files;
  stat_keeps = λ p q s. refl;
  open_keeps = λ p q s. refl;
  read_keeps = λ p q s. refl;
  get_keeps = λ url q s. refl;
  command_keeps = λ name args q s. refl;
  create_keeps = λ p q ne s. write_to-other p q "" s ne;
  remove_keeps = λ p q ne s. write_to-other p q "" s ne;
  copy_keeps = λ p body q ne s. write_to-other p q body s ne;
}

unfoldable pub memory_logs : Logs memory
memory_logs = record {
  log = λ s. s.commands;
  run_logs = λ name args s. refl;
  info_keeps = λ name args s. refl;
}

-- The files of the store are not its commands.
abbrev pub memory_files_keep : FilesKeep memory memory_logs.log
unfolding memory_logs
memory_files_keep = record {
  stat_keeps = λ p s. refl;
  mkdir_all_keeps = λ p s. refl;
  create_keeps = λ p s. refl;
  remove_keeps = λ p s. refl;
  open_file_keeps = λ p s. refl;
  is_symlink_keeps = λ p s. refl;
  read_all_keeps = λ p s. refl;
  http_get_keeps = λ url s. refl;
  copy_body_keeps = λ p body s. refl;
}
