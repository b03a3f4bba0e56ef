-- ===== src/Leave/Updates.antt =====
-- src/modules/leave/repository.rs: what the update of one request leaves of the table.
use dream_fly_backend.Prelude.{
  ◌≡◌, refl, ap, Bool, true, none, some, List, [], ◌∷◌, find, all, arith, Bool-cases, inl, inr,
}
use dream_fly_backend.Base.{Uuid}
use dream_fly_backend.Leave.Model.{LeaveRequest}
use dream_fly_backend.Leave.Requests.{is_request, update_by_id, returned}

module _ (id : Uuid) (test : LeaveRequest → Bool) (change : LeaveRequest → LeaveRequest) where
  pub all-update :
      (P : LeaveRequest → Bool) (lrs : List LeaveRequest)
      → ((lr : LeaveRequest) → test lr ≡ true → P lr ≡ true → P (change lr) ≡ true)
      → all P lrs ≡ true
      → all P (update_by_id id test change lrs) ≡ true
  unfolding update_by_id
  all-update P [] h p = refl
  all-update P (lr ∷ lrs) h p = elim (Bool-cases (is_request id lr)) [
    | inr other ↦ rw other (ground (arith, p, all-update P lrs h))
    | inl mine ↦ elim (Bool-cases (test lr)) [
      | inl go ↦ rw (mine, go) (ground (arith, p, h lr go))
      | inr stop ↦ rw (mine, stop) p
    ]
  ]

  pub update-none :
      (lrs : List LeaveRequest)
      → returned id test change (find (is_request id) lrs) ≡ none
      → update_by_id id test change lrs ≡ lrs
  unfolding update_by_id
  update-none [] h = refl
  update-none (lr ∷ lrs) h = elim (Bool-cases (is_request id lr)) [
    | inr other ↦ rw other (ap (lr ∷◌) (update-none lrs (rw other at h)))
    | inl mine ↦ elim (Bool-cases (test lr)) [
      | inl go ↦ (let h' = rw mine at h in let h'' = rw go at h' in cc h'')
      | inr stop ↦ rw (mine, stop) refl
    ]
  ]

  -- The row that is answered stands in the table.
  pub returned-found :
      (lrs : List LeaveRequest) {row : LeaveRequest}
      → ((lr : LeaveRequest) → (change lr).id ≡ lr.id)
      → returned id test change (find (is_request id) lrs) ≡ some row
      → find (is_request id) (update_by_id id test change lrs) ≡ some row
  unfolding update_by_id
  returned-found [] same h = cc h
  returned-found (lr ∷ lrs) same h = elim (Bool-cases (is_request id lr)) [
    | inr other ↦ rw (other, other) (returned-found lrs same (rw other at h))
    | inl mine ↦ elim (Bool-cases (test lr)) [
      | inr stop ↦ (let h' = rw mine at h in let h'' = rw stop at h' in cc h'')
      | inl go ↦
          let h' = rw mine at h in
          let h'' = rw go at h' in
          let there : is_request id (change lr) ≡ true = rw (same lr) mine in
          rw (mine, go, there) h''
    ]
  ]
