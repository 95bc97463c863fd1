-- ===== src/Runner/ModelWrite.antt =====
-- fleet/runner/model_write.py. `json.loads`, the texts of exceptions, `fnmatch`, the answer of the
-- model and the disk are given. The heartbeats before and after the call of the model are the worker's.
use aidean_fleet.Common.{
  ℕ, suc, Bool, true, false, not, ◌&&◌, ◌||◌, List, [], ◌∷◌, Option, none, some, String,
  if◌then◌else◌, any, filter, is_empty,
}
use aidean_fleet.Common.Text.{
  ◌==◌, is_blank, append, strip, replace_char, split_on, starts_with, is_in,
}
use aidean_fleet.Common.Outcome.{Result, ok, err, ◌>>=◌, ◌>>◌, guard, from_option}
use aidean_fleet.Kernel.State.{ExitCode}
use aidean_fleet.Models.Retry.{contains}
use aidean_fleet.Planner.Json.{Value, lookup, as_object, as_array, as_text}
use aidean_fleet.Planner.Service.{json_text, join, Reply, answered, unavailable}

-- PROTOCOL_BLOCK
abbrev pub protocol_block : String
protocol_block =
    "\n## 写回协议（必须严格遵守）\n你不接任何文件系统 CLI；只按以下 JSON 格式回复全部改动（一个 JSON 对象，可包 ```json 围栏）：\n{\"ops\": [{\"op\": \"write\", \"path\": \"<workspace 相对路径>\", \"content\": \"<完整文件全文>\"}],\n \"report\": \"<改动摘要：改了什么/为什么/自查>\"}\n规则：只支持 op=\"write\"；path 必须是 workspace 相对路径（禁止绝对路径与 .. 越界）；\n必须命中「允许改动的文件」模式；content 必须是完整文件内容（非 diff 片段）；\n越界或不允许的改动一个都不要写——任何违规将导致整批拒绝。\n"

-- ModelWriteOutcome, which has the fields of HarnessOutcome
pub record Outcome : Type 0 where
  pub succeeded : Bool
  pub output : String
  pub error_code : Option String
  pub error_msg : String
  pub exit_code : Option ExitCode
  pub session_id : String
  pub tokens_in : ℕ
  pub tokens_out : ℕ

unfoldable pub failure : String → String → String → Outcome
failure reply error_code msg = record {
  succeeded = false;
  output = reply;
  error_code = some error_code;
  error_msg = msg;
  exit_code = none;
  session_id = "";
  tokens_in = 0;
  tokens_out = 0;
}

abbrev pub protocol_error : String → String → Outcome
protocol_error reply msg = failure reply "MODEL_PROTOCOL" msg

abbrev pub scope_error : String → String → Outcome
scope_error reply msg = failure reply "MODEL_OUT_OF_SCOPE" msg

-- what is wrong with a reply, or with the operation of an index
pub data Wrong : Type 0 where
  no_json not_object no_ops : Wrong
  not_write not_texts : ℕ → Wrong
  no_path absolute climbs : ℕ → Wrong
  not_allowed is_link escapes : ℕ → Wrong

-- `p not in ("", ".")`
abbrev pub is_step : String → Bool
is_step p = not (is_blank p || p == ".")

abbrev pub first_part : List String → String
first_part [] = ""
first_part (w ∷ ws) = w

abbrev pub raw_path : String → String
raw_path path = replace_char 92 "/" (strip path)

abbrev pub is_absolute : String → Bool
is_absolute raw = starts_with "/" raw || contains ":" (first_part (split_on 47 raw))

abbrev pub steps : String → List String
steps raw = filter is_step (split_on 47 raw)

-- `_normalize_rel`
unfoldable pub normalize_rel : ℕ → String → Result Wrong String
normalize_rel i path = do
  let raw = raw_path path
  guard (not (is_blank raw)) (no_path i)
  guard (not (is_absolute raw)) (absolute i)
  guard (not (is_in ".." (steps raw))) (climbs i)
  ok (join "/" (steps raw))

-- what is given: `fnmatch`, `json.loads` and the texts of exceptions
pub record Reader : Type 0 where
  pub fnmatch : String → String → Bool
  pub loads : String → Option Value
  pub message : Wrong → String

-- `_allowed`; no pattern allows nothing
unfoldable pub allowed : Reader → String → List String → Bool
allowed r rel allowed_files =
    let patterns = filter (λ p. not (is_blank p)) allowed_files in
    not (is_empty patterns) && any (r.fnmatch rel) patterns

-- an operation whose form is right
pub record Op : Type 0 where
  pub path : String
  pub content : String

abbrev is_text : String → Option Value → Bool
is_text want none = false
is_text want (some v) = elim (as_text v) [ none ↦ false | some s ↦ s == want ]

abbrev text_field : Option Value → Option String
text_field none = none
text_field (some v) = as_text v

-- one round of the loop of `_parse_ops`
unfoldable pub parse_op : ℕ → Value → Result Wrong Op
parse_op i v = do
  op ← from_option (as_object v) (not_write i)
  guard (is_text "write" (lookup "op" op)) (not_write i)
  path ← from_option (text_field (lookup "path" op)) (not_texts i)
  content ← from_option (text_field (lookup "content" op)) (not_texts i)
  ok record { path = path; content = content }

unfoldable pub parse_each : ℕ → List Value → Result Wrong (List Op)
parse_each i [] = ok []
parse_each i (v ∷ vs) = do op ← parse_op i v; rest ← parse_each (suc i) vs; ok (op ∷ rest)

abbrev array_of : Option Value → Option (List Value)
array_of none = none
array_of (some v) = as_array v

-- `_parse_ops`
unfoldable pub parse_ops : Reader → String → Result Wrong (List Op)
parse_ops r reply = do
  text ← from_option (json_text reply) no_json
  v ← from_option (r.loads text) no_json
  fields ← from_option (as_object v) not_object
  ops ← from_option (array_of (lookup "ops" fields)) no_ops
  guard (not (is_empty ops)) no_ops
  parse_each 0 ops

-- A file is written, or an exception is raised: before the file is opened, or behind that, when it
-- holds this text, the beginning of what was to be written.
pub data Written : Type 0 where
  complete unopened : Written
  broken_off : String → Written

-- The disk: the parts of `Path(workspace).resolve()`; of a path below it, whether it is a link and the
-- parts that it resolves to; and how the writing of the n-th file ends.
pub record Disk : Type 0 where
  pub root : List String
  pub is_symlink : String → Bool
  pub resolved : String → List String
  pub attempt : ℕ → List String → Written

-- `target.is_relative_to(ws)`, on the parts
unfoldable pub is_relative_to : List String → List String → Bool
is_relative_to [] target = true
is_relative_to (p ∷ root) [] = false
is_relative_to (p ∷ root) (q ∷ target) = p == q && is_relative_to root target

pub record Write : Type 0 where
  pub target : List String
  pub content : String

-- the loop that writes: the files that have been written, with what they hold, and whether all have
-- been written whole
unfoldable pub write_files : Disk → ℕ → List Write → List Write × Bool
write_files disk n [] = ([], true)
write_files disk n (w ∷ ws) =
    let rest = write_files disk (suc n) ws in
    elim (disk.attempt n w.target) [
      | complete ↦ (w ∷ rest.0, rest.1)
      | unopened ↦ ([], false)
      | broken_off text ↦ (record w { content = text } ∷ [], false)
    ]

abbrev pub written_outcome : String → Outcome
written_outcome reply = record (failure reply "" "") {
  succeeded = true;
  error_code = none;
  exit_code = some (ExitCode.pos 0);
}

module _ (r : Reader) (disk : Disk) (allowed_files : List String) where
  -- one round of the loop of the checks
  unfoldable pub check_op : ℕ → Op → Result Wrong Write
  check_op i op = do
    rel ← normalize_rel i op.path
    guard (allowed r rel allowed_files) (not_allowed i)
    guard (not (disk.is_symlink rel)) (is_link i)
    guard (is_relative_to disk.root (disk.resolved rel)) (escapes i)
    ok record { target = disk.resolved rel; content = op.content }

  unfoldable pub check_ops : ℕ → List Op → Result Wrong (List Write)
  check_ops i [] = ok []
  check_ops i (op ∷ ops) = do write ← check_op i op; rest ← check_ops (suc i) ops; ok (write ∷ rest)

  -- the outcome, or none where an exception of the disk leaves the function, and what was written
  abbrev pub use_writes : String → Result Wrong (List Write) → Option Outcome × List Write
  use_writes reply (err wrong) = (some (scope_error reply (r.message wrong)), [])
  use_writes reply (ok plan) =
      let (done, whole) = write_files disk 0 plan in
      (if whole then some (written_outcome reply) else none, done)

  abbrev pub use_ops : String → Result Wrong (List Op) → Option Outcome × List Write
  use_ops reply (err wrong) = (some (protocol_error reply (r.message wrong)), [])
  use_ops reply (ok ops) = use_writes reply (check_ops 0 ops)

  -- `run_model_write`
  unfoldable pub run_model_write : (String → Reply) → String → Option Outcome × List Write
  run_model_write client prompt = elim (client (append prompt protocol_block)) [
    | unavailable why ↦ (some (protocol_error "" (append "模型客户端调用失败：" why)), [])
    | answered reply ↦ use_ops reply (parse_ops r reply)
  ]
