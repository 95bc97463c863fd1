-- ===== src/Governance/Expiry.antt =====
-- What `check_expired` leaves.
use aidean_fleet.Common.{
  any-filter, any-map, ◌≡◌, refl, ◌∙◌, inl, inr, Bool, true, false, ◌&&◌, ◌||◌, List, [], ◌∷◌,
  String, any, filter, update, All, All-map, Bool-cases, arith, ap,
}
use aidean_fleet.Common.Text.{◌==◌, ==_refl, ==_comm, is_in}
use aidean_fleet.Governance.Approvals.{
  Decision, ApprovalRequest, Clock, is_pending, is_pending_at, is_decision, decide, decide_approval,
  reject, is_expired, insert_created, order_created, list_pending_approvals, expired_ids,
  reject_all, check_expired,
}

any-insert_created :
    (p : ApprovalRequest → Bool) (a : ApprovalRequest) (rows : List ApprovalRequest)
    → any p (insert_created a rows) ≡ (p a || any p rows)
unfolding insert_created
any-insert_created p a [] = refl
any-insert_created p a (b ∷ rows) = ground (arith, any-insert_created p a rows)

any-order_created :
    (p : ApprovalRequest → Bool) (rows : List ApprovalRequest)
    → any p (order_created rows) ≡ any p rows
unfolding order_created
any-order_created p [] = refl
any-order_created p (a ∷ rows) =
    any-insert_created p a (order_created rows) ∙ ap (λ b. p a || b) (any-order_created p rows)

-- each element, with what holds of an element that is among them
All-among {ℓ κ} :
    {A : Type ℓ} (P : A → Type κ) (xs : List A)
    → ((x : A) → ((p : A → Bool) → p x ≡ true → any p xs ≡ true) → P x)
    → All P xs
All-among P [] h = tt
All-among P (x ∷ xs) h =
    (h x (λ p t. rw t), All-among P xs (λ y among. h y (λ p t. rw (among p t) (ground arith))))

module _ (clock : Clock) where
  -- pending, although its date has passed
  abbrev pub is_due : ApprovalRequest → Bool
  is_due a = is_pending a && is_expired clock a

  IsListed : List String → ApprovalRequest → Type 0
  IsListed ids a = is_due a ≡ true → is_in a.approval_id ids ≡ true

  expired_ids-IsListed :
      (rows : List ApprovalRequest) → All (IsListed (expired_ids clock rows)) rows
  unfolding IsListed expired_ids list_pending_approvals
  expired_ids-IsListed rows = All-among (IsListed (expired_ids clock rows)) rows (λ a among due.
      any-map (λ x. x == a.approval_id) (λ x. x.approval_id)
        (filter (is_expired clock) (order_created (filter is_pending rows)))
      ∙ any-filter (λ x. x.approval_id == a.approval_id) (is_expired clock) _
      ∙ any-order_created (λ x. is_expired clock x && x.approval_id == a.approval_id) _
      ∙ any-filter (λ x. is_expired clock x && x.approval_id == a.approval_id) is_pending rows
      ∙ among (λ x. is_pending x && (is_expired clock x && x.approval_id == a.approval_id))
          (ground (arith, due, ==_refl a.approval_id)))

  update-IsListed :
      (i : String) (ids : List String) (f : ApprovalRequest → ApprovalRequest)
      (rows : List ApprovalRequest)
      → ((x : ApprovalRequest) → is_pending (f x) ≡ false)
      → All (IsListed (i ∷ ids)) rows
      → All (IsListed ids) (update (is_pending_at i) f rows)
  unfolding IsListed is_pending_at
  update-IsListed i ids f [] over h = tt
  update-IsListed i ids f (x ∷ rows) over h = elim (Bool-cases (is_pending_at i x)) [
    | inl p ↦
        rw p (λ due. absurd (ground (arith, over x, due)), update-IsListed i ids f rows over h.1)
    | inr p ↦ rw p (
      λ due. ground (arith, h.0 due, ==_comm i x.approval_id, due, p),
      update-IsListed i ids f rows over h.1,
    )
  ]

  reject_all-expired :
      (ids : List String) (rows : List ApprovalRequest)
      → All (IsListed ids) rows
      → All (λ a. is_due a ≡ false) (reject_all clock ids rows)
  unfolding IsListed reject_all reject decide_approval is_decision is_pending
  reject_all-expired [] rows h = All-map (λ a k. ground (arith, k)) rows h
  reject_all-expired (i ∷ ids) rows h = reject_all-expired ids _ (
      update-IsListed i ids (decide Decision.rejection "system:timeout" clock.stamp) rows
        (λ x. refl) h)

  -- Behind `check_expired` no request is pending whose date has passed.
  pub check_expired-expired :
      (rows : List ApprovalRequest) → All (λ a. is_due a ≡ false) (check_expired clock rows).1
  unfolding check_expired
  check_expired-expired rows =
      reject_all-expired (expired_ids clock rows) rows (expired_ids-IsListed rows)
