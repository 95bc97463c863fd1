-- ===== src/Runner/Scope.antt =====
-- What `run_model_write` may write.
use aidean_fleet.Common.{
  ℕ, suc, ◌+◌, ◌≡◌, refl, ap, inl, inr, Bool, true, false, not, ◌||◌, List, [], ◌∷◌, ◌++◌, Option,
  none, some, String, filter, length, All, arith, Bool-cases, if◌then◌else◌,
}
use aidean_fleet.Common.Text.{◌==◌, is_blank, append, split_on, is_in}
use aidean_fleet.Common.Outcome.{Result, ok, err, bind_ok, guard_ok, returned}
use aidean_fleet.Planner.Service.{join, Reply, answered, unavailable}
use aidean_fleet.Runner.ModelWrite.{
  Outcome, failure, Wrong, is_step, raw_path, is_absolute, steps, normalize_rel, Reader, allowed,
  Op, parse_ops, Written, complete, unopened, broken_off, Disk, is_relative_to, Write, check_op,
  check_ops, write_files, use_writes, use_ops, run_model_write, written_outcome, protocol_block,
}

-- a segment that names an entry of the directory before it
abbrev pub IsPlain : String → Type 0
IsPlain p = (is_blank p ≡ false) × ((p == ".") ≡ false) × ((p == "..") ≡ false)

-- a path that only goes down
pub record GoesDown (rel : String) : Type 0 where
  pub parts : List String
  pub spelled : rel ≡ join "/" parts
  pub plain : All IsPlain parts

steps-IsPlain :
    (ps : List String) → is_in ".." (filter is_step ps) ≡ false → All IsPlain (filter is_step ps)
steps-IsPlain [] out = tt
steps-IsPlain (p ∷ ps) out = elim (Bool-cases (is_step p)) [
  | inr skipped ↦ rw skipped (steps-IsPlain ps (rw skipped at out))
  | inl kept ↦
      let both : ((p == "..") || is_in ".." (filter is_step ps)) ≡ false = rw kept at out in
      rw kept (
        (ground (arith, kept), ground (arith, kept), ground (arith, both)),
        steps-IsPlain ps (ground (arith, both)),
      )
]

pub normalize_rel-GoesDown :
    (i : ℕ) (path : String) {rel : String} → normalize_rel i path ≡ ok rel → GoesDown rel
unfolding normalize_rel
normalize_rel-GoesDown i path e =
    let raw = raw_path path in
    guard_ok (not (is_blank raw)) _ e λ there k1.
      guard_ok (not (is_absolute raw)) _ k1 λ relative k2.
        guard_ok (not (is_in ".." (steps raw))) _ k2 λ down k3. returned GoesDown _ k3 record {
          parts = steps raw;
          spelled = refl;
          plain = steps-IsPlain (split_on 47 raw) (ground (arith, down));
        }

abbrev is_whole : Written → Bool
is_whole complete = true
is_whole _ = false

module _ (r : Reader) (disk : Disk) (allowed_files : List String) where
  -- what an operation writes: a target in the workspace whose path is allowed and no link
  pub record Writes (op : Op) (w : Write) : Type 0 where
    pub rel : String
    pub down : GoesDown rel
    pub permitted : allowed r rel allowed_files ≡ true
    pub no_link : disk.is_symlink rel ≡ false
    pub placed : w.target ≡ disk.resolved rel
    pub inside : is_relative_to disk.root w.target ≡ true
    pub same_content : w.content ≡ op.content

  pub data AllWrite : List Op → List Write → Type 0 where
    nothing : AllWrite [] []
    one :
        {op : Op} {w : Write} {ops : List Op} {ws : List Write}
        → Writes op w
        → AllWrite ops ws
        → AllWrite (op ∷ ops) (w ∷ ws)

  check_op-Writes :
      (i : ℕ) (op : Op) {w : Write} → check_op r disk allowed_files i op ≡ ok w → Writes op w
  unfolding check_op
  check_op-Writes i op e = bind_ok (normalize_rel i op.path) e λ rel e1 k1.
      guard_ok (allowed r rel allowed_files) _ k1 λ permitted k2.
        guard_ok (not (disk.is_symlink rel)) _ k2 λ no_link k3.
          guard_ok (is_relative_to disk.root (disk.resolved rel)) _ k3 λ inside k4.
            returned (Writes op) _ k4 record {
              rel = rel;
              down = normalize_rel-GoesDown i op.path e1;
              permitted = permitted;
              no_link = ground (arith, no_link);
              placed = refl;
              inside = inside;
              same_content = refl;
            }

  check_ops-AllWrite :
      (i : ℕ) (ops : List Op) {ws : List Write}
      → check_ops r disk allowed_files i ops ≡ ok ws
      → AllWrite ops ws
  unfolding check_ops
  check_ops-AllWrite i [] e = returned (AllWrite []) _ e nothing
  check_ops-AllWrite i (op ∷ ops) e = bind_ok (check_op r disk allowed_files i op) e λ w e1 k1.
      bind_ok (check_ops r disk allowed_files (suc i) ops) k1 λ ws e2 k2.
        returned (AllWrite (op ∷ ops)) _ k2
          (one (check_op-Writes i op e1) (check_ops-AllWrite (suc i) ops e2))

  -- what a write that raises leaves of its file
  abbrev pub left_of : Written → Write → List Write
  left_of complete w = w ∷ []
  left_of unopened w = []
  left_of (broken_off text) w = record w { content = text } ∷ []

  -- what is written of a list, from the `n`-th file on: all of it, or what stands before a file whose
  -- writing raises, and what that one leaves
  pub data Stops (n : ℕ) (ws : List Write) (done : List Write) : Bool → Type 0 where
    at_end : done ≡ ws → Stops n ws done true
    before :
        (front : List Write) (w : Write) (rest : List Write)
        → ws ≡ front ++ w ∷ rest
        → is_whole (disk.attempt (n + length front) w.target) ≡ false
        → done ≡ front ++ left_of (disk.attempt (n + length front) w.target) w
        → Stops n ws done false

  further :
      (n : ℕ) (w : Write) {ws done : List Write} {whole : Bool}
      → Stops (suc n) ws done whole
      → Stops n (w ∷ ws) (w ∷ done) whole
  further n w (at_end e) = at_end (ap (λ xs. w ∷ xs) e)
  further n w (before front v rest e raised left) =
      let same : n + suc (length front) ≡ suc n + length front = omega arith in
      before (w ∷ front) v rest (ap (λ xs. w ∷ xs) e) (rw same raised)
        (rw same (ap (λ xs. w ∷ xs) left))

  write_files-Stops :
      (n : ℕ) (ws : List Write) → Stops n ws (write_files disk n ws).0 (write_files disk n ws).1
  unfolding write_files
  write_files-Stops n [] = at_end refl
  write_files-Stops n (w ∷ ws) =
      by_attempt (write_files-Stops (suc n) ws) (disk.attempt n w.target) refl
    where
      same : n + 0 ≡ n
      same = omega arith

      by_attempt :
          Stops (suc n) ws (write_files disk (suc n) ws).0 (write_files disk (suc n) ws).1
          → (a : Written) → disk.attempt n w.target ≡ a
          → Stops n (w ∷ ws) (write_files disk n (w ∷ ws)).0 (write_files disk n (w ∷ ws)).1
      by_attempt rest complete e = rw (e, write_files) (further n w rest)
      by_attempt rest unopened e =
          rw (e, write_files) (before [] w ws refl (rw (same, e) refl) (rw (same, e) refl))
      by_attempt rest (broken_off text) e =
          rw (e, write_files) (before [] w ws refl (rw (same, e) refl) (rw (same, e) refl))

  -- what a call of the model leaves: an error and no file; the files of all operations of its reply;
  -- or an exception of the disk, the files before the one that it stops at, and what that one holds
  pub data Leaves (client : String → Reply) (prompt : String) (o : Option Outcome)
      (done : List Write) : Type 0 where
    refused :
        (f : Outcome) → o ≡ some f → f.succeeded ≡ false → done ≡ [] → Leaves client prompt o done
    wrote :
        (reply : String) (ops : List Op) (ws : List Write) (whole : Bool)
        → client (append prompt protocol_block) ≡ answered reply
        → parse_ops r reply ≡ ok ops
        → AllWrite ops ws
        → Stops 0 ws done whole
        → o ≡ (if whole then some (written_outcome reply) else none)
        → Leaves client prompt o done

  -- Whatever the model answers, either no file is written, and the outcome is an error; or the reply
  -- holds operations of the right form, each of which has a path that only goes down from the workspace,
  -- is allowed, names no link and resolves to the workspace or below it. Then the files written are, in
  -- order, those of all operations with their contents, and the outcome is a success; or the disk has
  -- stopped one of them with an exception, those before it have been written, and of that one what the
  -- disk had taken, if it was opened.
  pub run_model_write-Leaves :
      (client : String → Reply) (prompt : String)
      → Leaves client prompt
          (run_model_write r disk allowed_files client prompt).0
          (run_model_write r disk allowed_files client prompt).1
  unfolding run_model_write failure
  run_model_write-Leaves client prompt = by_reply (client (append prompt protocol_block)) refl
    where
      by_plan :
          (reply : String) (ops : List Op)
          → client (append prompt protocol_block) ≡ answered reply
          → parse_ops r reply ≡ ok ops
          → (checked : Result Wrong (List Write)) → check_ops r disk allowed_files 0 ops ≡ checked
          → Leaves client prompt
              (use_writes r disk allowed_files reply checked).0
              (use_writes r disk allowed_files reply checked).1
      by_plan reply ops said read (err wrong) e = refused _ refl refl refl
      by_plan reply ops said read (ok ws) e =
          wrote reply ops ws _ said read (check_ops-AllWrite 0 ops e) (write_files-Stops 0 ws) refl

      by_ops :
          (reply : String)
          → client (append prompt protocol_block) ≡ answered reply
          → (parsed : Result Wrong (List Op)) → parse_ops r reply ≡ parsed
          → Leaves client prompt
              (use_ops r disk allowed_files reply parsed).0
              (use_ops r disk allowed_files reply parsed).1
      by_ops reply said (err wrong) e = refused _ refl refl refl
      by_ops reply said (ok ops) e = by_plan reply ops said e _ refl

      by_reply :
          (a : Reply)
          → client (append prompt protocol_block) ≡ a
          → Leaves client prompt
              (run_model_write r disk allowed_files client prompt).0
              (run_model_write r disk allowed_files client prompt).1
      by_reply (unavailable why) e = rw (e, run_model_write) (refused _ refl refl refl)
      by_reply (answered reply) e = rw (e, run_model_write) (by_ops reply e _ refl)
