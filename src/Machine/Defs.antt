-- ===== src/Machine/Defs.antt =====
-- The machine. What a call answers is up to the `Host`, which sees all calls made so far, so that a
-- theorem over all hosts covers every order of failures. What a call does to the files is here.
use eks_hybrid.Base.{ℕ, String, ◌<>◌, starts_with, Bool, ◌||◌, Option, List, str_eq, Err, Result}
use eks_hybrid.Tracker.{InstalledArtifacts}

abbrev pub Bytes : Type 0
Bytes = List ℕ

pub data Call : Type 0 where
  fetch : String → Call
  remove_all : String → Call
  remove : String → Call
  stat : String → Call
  mkdir_all : String → Call
  open_trunc : String → Call
  open_append : String → Call
  copy : String → Call
  open_read : String → Call
  read_file : String → Call
  write_file : String → Call
  extract : String → Call
  look_path : String → Call
  command : String → List String → Call
  unit_status : String → Call
  unit_stop : String → Call
  backoff : Call
  service : String → Call

-- One step of a tar reader: an error, a directory or a file.
pub data TarItem : Type 0 where
  tar_error : Err → TarItem
  tar_dir : String → TarItem
  tar_file : String → Bytes → TarItem

-- What a download delivers: its bytes, after any gzip decompression, and the checksum that was
-- published for them.
pub record Source : Type 0 where
  pub contents : Bytes
  pub expected : Bytes

pub record Host : Type 0 where
  -- the error of a call that returns only an error
  pub act : List Call → Call → Option Err
  -- the answer of a call that is a test
  pub test : List Call → Call → Bool
  pub fetch_source : List Call → String → Result Source
  -- how a status or another short text reads
  pub text : List Call → Call → String
  -- what is left of a file by a removal or a copy that failed
  pub left : List Call → String → Bool
  pub torn : List Call → String → Option Bytes
  -- how often time.After(backoff) wins against ctx.Done() from here on
  pub waits : List Call → ℕ
  pub sha256 : Bytes → Bytes
  -- opening a gzipped tar archive, and what its reader then delivers until io.EOF
  pub untar : Bytes → Result (List TarItem)
  -- path.Dir and filepath.Join
  pub dir : String → String
  pub join : String → String → String
  -- filepath.EvalSymlinks
  pub eval_symlinks : List Call → String → Result String
  -- semver.Compare(v, w) < 0
  pub semver_lt : String → String → Bool
  -- crypto.PGP verification of an installer against a signature
  pub signature_error : Bytes → Bytes → Option Err
  -- HOME
  pub home : Option String
  -- the managed instance id and the region in an SSM registration file
  pub registration : Bytes → Result (String × String)
  pub marshal : InstalledArtifacts → Result Bytes
  -- the artifacts of a tracker file; `none` is a nil pointer
  pub unmarshal : Bytes → Result (Option InstalledArtifacts)

pub record World : Type 0 where
  -- the calls made so far, the latest first
  pub trace : List Call
  pub files : String → Option Bytes
  -- what the tracker in memory points to
  pub artifacts : InstalledArtifacts

-- `q` is `p`, or lies below it.
unfoldable pub under : String → String → Bool
under p q = str_eq q p || starts_with q (p <> "/")
