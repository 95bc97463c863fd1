-- ===== src/Gates/Changes.antt =====
-- What `snapshot_workspace` keeps and what `diff_snapshot` finds.
use aidean_fleet.Common.{
  ℕ, suc, ◌≤◌, ◌≡◌, refl, inl, inr, Bool, true, false, not, ◌&&◌, ◌||◌, List, [], ◌∷◌, ◌++◌, Option,
  none, some, String, eqb, leb, filter, length, arith, length-append, Bool-cases, ◌∙◌, ap,
  any-append, subst,
}
use aidean_fleet.Common.Text.{◌==◌, eq_of_==, is_in, append, precedes}
use aidean_fleet.Common.Keys.{is_in-filter}
use aidean_fleet.Common.Sorted.{any-order_by}
use aidean_fleet.Gates.Snapshot.{
  Paths, Stat, Snapshot, Dir, Dirs, dir, no_dirs, sub, scan_files, scan_dir, scan_subs, is_ignored,
  ignore_dirs, snapshot_workspace, look, paths_of, has_path, without_repetitions, sorted_set,
  is_modified, diff_snapshot, merged_changes,
}

module _ (p : Paths) (limit : ℕ) (some_limit : 1 ≤ limit) where
  -- at most as many files as the limit, and fewer while it is not reached
  abbrev IsWithin : Bool × Snapshot → Type 0
  IsWithin (full, found) = (length found ≤ limit) × (full ≡ false → suc (length found) ≤ limit)

  scan_files-IsWithin :
      (prefix : String) (files : List (String × Stat)) (found : Snapshot)
      → suc (length found) ≤ limit
      → IsWithin (scan_files p limit prefix files found)
  unfolding scan_files
  scan_files-IsWithin prefix [] found l = (omega (arith, l), λ e. l)
  scan_files-IsWithin prefix ((name, stat) ∷ files) found l =
      let found1 = found ++ (append prefix name, stat) ∷ [] in
      let size : length found1 ≡ suc (length found) =
        omega (arith, length-append found ((append prefix name, stat) ∷ [])) in
      elim (Bool-cases (is_ignored p (append prefix name))) [
        | inl ignored ↦ rw ignored (scan_files-IsWithin prefix files found l)
        | inr kept ↦ elim (Bool-cases (leb limit (length found1))) [
          | inl full ↦ rw (kept, full) (omega (arith, l, size), λ e. cc e)
          | inr room ↦
              rw (kept, room) (scan_files-IsWithin prefix files found1 (ground (arith, room, size)))
        ]
      ]

  mutual
    unfolding scan_dir scan_subs

    scan_dir-IsWithin :
        (prefix : String) (d : Dir) (found : Snapshot)
        → suc (length found) ≤ limit
        → IsWithin (scan_dir p limit prefix d found)
    scan_dir-IsWithin prefix (dir files subs) found l =
        let (small, room) = scan_files-IsWithin prefix files found l in
        scan_subs-IsWithin prefix subs (scan_files p limit prefix files found).0
          (scan_files p limit prefix files found).1 small room

    scan_subs-IsWithin :
        (prefix : String) (subs : Dirs) (full : Bool) (found : Snapshot)
        → length found ≤ limit
        → (full ≡ false → suc (length found) ≤ limit)
        → IsWithin (scan_subs p limit prefix subs full found)
    scan_subs-IsWithin prefix no_dirs full found l room = (l, room)
    scan_subs-IsWithin prefix (sub name d subs) true found l room = (l, room)
    scan_subs-IsWithin prefix (sub name d subs) false found l room =
        elim (Bool-cases (is_in name ignore_dirs)) [
          | inl ignored ↦ rw ignored (scan_subs-IsWithin prefix subs false found l room)
          | inr kept ↦
              let (l1, room1) =
                scan_dir-IsWithin (append prefix (append name "/")) d found (room refl) in
              let inside = scan_dir p limit (append prefix (append name "/")) d found in
              rw kept (scan_subs-IsWithin prefix subs inside.0 inside.1 l1 room1)
        ]

  -- A snapshot never holds more files than its limit, which is one at least.
  pub snapshot_workspace-bounded : (root : Dir) → length (snapshot_workspace p limit root) ≤ limit
  unfolding snapshot_workspace
  snapshot_workspace-bounded root = (scan_dir-IsWithin "" root [] (omega (arith, some_limit))).0

-- a path has another record than before, or one where it had none, or none where it had one
abbrev pub differs : Option Stat → Option Stat → Bool
differs none none = false
differs none (some now) = true
differs (some before) none = true
differs (some before) (some now) =
    not (eqb before.size now.size && eqb before.mtime_ns now.mtime_ns)

is_in-without_repetitions :
    (path : String) (xs : List String) → is_in path (without_repetitions xs) ≡ is_in path xs
unfolding without_repetitions
is_in-without_repetitions path [] = refl
is_in-without_repetitions path (x ∷ xs) =
    let rest = is_in-without_repetitions path xs in
    elim (Bool-cases (is_in x (without_repetitions xs))) [
      | inr new ↦ rw (new, rest) refl
      | inl again ↦ rw again (elim (Bool-cases (x == path)) [
        | inr other ↦ rw other rest
        | inl same ↦
            let there : is_in path (without_repetitions xs) ≡ true =
              subst (λ y. is_in y (without_repetitions xs) ≡ true) (eq_of_== x path same) again in
            rw (same, there) refl
      ])
    ]

is_in-sorted_set : (path : String) (xs : List String) → is_in path (sorted_set xs) ≡ is_in path xs
unfolding sorted_set
is_in-sorted_set path xs =
    any-order_by precedes (λ x. x == path) (without_repetitions xs)
    ∙ is_in-without_repetitions path xs

data Looked (path : String) (s : Snapshot) : Type 0 where
  there : (stat : Stat) → has_path path s ≡ true → look path s ≡ some stat → Looked path s
  absent : has_path path s ≡ false → look path s ≡ none → Looked path s

looked : (path : String) (s : Snapshot) → Looked path s
looked path [] = absent refl refl
looked path ((p, stat) ∷ s) = elim (Bool-cases (p == path)) [
  | inl same ↦ there stat (rw same refl) (rw same refl)
  | inr other ↦ elim (looked path s) [
    | there now h e ↦ there now (rw other h) (rw other e)
    | absent h e ↦ absent (rw other h) (rw other e)
  ]
]

-- The files that are reported as changed are those whose record in the two snapshots differs: made,
-- deleted, or of another size or time.
pub merged_changes-differs :
    (path : String) (before now : Snapshot)
    → is_in path (merged_changes before now) ≡ differs (look path before) (look path now)
unfolding merged_changes diff_snapshot is_modified
merged_changes-differs path before now =
    let d = diff_snapshot before now in
    let added : is_in path d.added ≡ (not (has_path path before) && has_path path now) =
      is_in-sorted_set path (filter (λ p. not (has_path p before)) (paths_of now))
      ∙ is_in-filter (λ p. not (has_path p before)) path (paths_of now) in
    let modified : is_in path d.modified
        ≡ (is_modified (look path before) (look path now) && has_path path now) =
      is_in-sorted_set path (filter (λ p. is_modified (look p before) (look p now)) (paths_of now))
      ∙ is_in-filter (λ p. is_modified (look p before) (look p now)) path (paths_of now) in
    let removed : is_in path d.removed ≡ (not (has_path path now) && has_path path before) =
      is_in-sorted_set path (filter (λ p. not (has_path p now)) (paths_of before))
      ∙ is_in-filter (λ p. not (has_path p now)) path (paths_of before) in
    is_in-sorted_set path (d.added ++ (d.modified ++ d.removed))
    ∙ any-append (λ x. x == path) d.added (d.modified ++ d.removed)
    ∙ ap (λ b. is_in path d.added || b) (any-append (λ x. x == path) d.modified d.removed)
    ∙ rw (added, modified, removed) (by_records (looked path before) (looked path now))
  where
    by_records :
        Looked path before
        → Looked path now
        → ((not (has_path path before) && has_path path now)
            || ((is_modified (look path before) (look path now) && has_path path now)
                || (not (has_path path now) && has_path path before)))
          ≡ differs (look path before) (look path now)
    by_records (there s h e) (there t k f) = rw (h, k, e, f) (ground arith)
    by_records (there s h e) (absent k f) = rw (h, k, e, f) refl
    by_records (absent h e) (there t k f) = rw (h, k, e, f) refl
    by_records (absent h e) (absent k f) = rw (h, k, e, f) refl
