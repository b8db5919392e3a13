-- ===== src/Overlap/Apart.antt =====
-- Messages of a hub that are handled one after the other.
use blockcore_gateway.Common.{
  ℕ, ◌+◌, ◌≤◌, ◌≡◌, ◌⊎◌, inl, inr, String, List, [], ◌∷◌, str_eq, str_eq_iff, get_elem?, arith,
  Option-cases, Bool-cases,
}
use blockcore_gateway.Overlap.{
  looking, passed, Handling, Handlings, is_listed, go_on, thread_goes_on, Step, arrives, goes_on,
  leaves, none_yet,
}
use blockcore_gateway.Overlap.Counting.{
  total, total-append, total-set, copies, adds, busy, looks, copies-is_listed, copies-remove_id,
}
use blockcore_gateway.Overlap.Bounds.{copies-append, Stage-cases}

-- What is reached while at no time two threads handle a message of the hub.
pub data ReachApart (id : String) : Handlings → Type 0 where
  at_first : ReachApart id none_yet
  step :
      {s t : Handlings}
      → ReachApart id s
      → Step s t
      → total (busy id) t.threads ≤ 1
      → ReachApart id t

busy-looks-adds : (id : String) (h : Handling) → busy id h ≡ looks id h + adds id h
busy-looks-adds id h = elim (Stage-cases h.stage) [
  | inl e ↦ ground arith
  | inr (inl e) ↦ ground arith
  | inr (inr e) ↦ ground arith
]

total-busy :
    (id : String) (hs : List Handling)
    → total (busy id) hs ≡ total (looks id) hs + total (adds id) hs
total-busy id [] = omega arith
total-busy id (h ∷ hs) = omega (arith, busy-looks-adds id h, total-busy id hs)

-- A thread that goes on adds to the entries and to the threads that are about to, or it has found no entry.
go_on-adds :
    (id : String) (h : Handling) (ids : List String)
    → (copies id (go_on h ids).1 + adds id (go_on h ids).0 ≤ copies id ids + adds id h)
      ⊎ ((copies id (go_on h ids).1 ≡ 0)
          × (looks id h ≡ 1)
          × (adds id h ≡ 0)
          × (adds id (go_on h ids).0 ≤ 1))
unfolding go_on
go_on-adds id h ids = elim (Stage-cases h.stage) [
  | inl e ↦ elim (Bool-cases (is_listed h.id ids)) [
    | inl l ↦ inl (ground arith)
    | inr l ↦ elim (Bool-cases (str_eq h.id id)) [
      | inl q ↦ inr (ground (arith, copies-is_listed id ids, str_eq_iff h.id id))
      | inr q ↦ inl (ground arith)
    ]
  ]
  | inr (inl e) ↦ inl (ground (arith, copies-append id h.id ids))
  | inr (inr e) ↦ inl (ground arith)
]

thread_goes_on-adds :
    (id : String) (i : ℕ) (s : Handlings)
    → total (busy id) s.threads ≤ 1
    → copies id s.ids + total (adds id) s.threads ≤ 1
    → copies id (thread_goes_on i s).ids + total (adds id) (thread_goes_on i s).threads ≤ 1
unfolding thread_goes_on
thread_goes_on-adds id i s one kept = elim (Option-cases (get_elem? s.threads i)) [
  | inl e ↦ rw (e, thread_goes_on) kept
  | inr (h, e) ↦
      let g = (go_on h s.ids).0 in
      let others = total-set (adds id) s.threads i h g e in
      let itself = total-set (looks id) s.threads i h (record h { stage = passed }) e in
      rw (e, thread_goes_on)
        (elim (go_on-adds id h s.ids) [
          | inl a ↦ omega (arith, a, others)
          | inr (a, b, c, d) ↦ omega (arith, a, b, c, d, others, itself, total-busy id s.threads)
        ])
]

Step-adds :
    (id : String) {s t : Handlings}
    → Step s t
    → total (busy id) s.threads ≤ 1
    → copies id s.ids + total (adds id) s.threads ≤ 1
    → copies id t.ids + total (adds id) t.threads ≤ 1
Step-adds id {s} (arrives other) one kept =
    omega (arith, total-append (adds id) s.threads (record { id = other; stage = looking } ∷ []))
Step-adds id {s} (goes_on i) one kept = thread_goes_on-adds id i s one kept
Step-adds id {s} (leaves other) one kept = omega (arith, copies-remove_id id other s.ids)

ReachApart-busy : (id : String) {s : Handlings} → ReachApart id s → total (busy id) s.threads ≤ 1
ReachApart-busy id at_first = omega arith
ReachApart-busy id (step r m one) = one

ReachApart-adds :
    (id : String) {s : Handlings}
    → ReachApart id s
    → copies id s.ids + total (adds id) s.threads ≤ 1
ReachApart-adds id at_first = omega arith
ReachApart-adds id (step r m one) = Step-adds id m (ReachApart-busy id r) (ReachApart-adds id r)

-- While at no time two threads handle a message of a hub, whatever the others do, it has at most one entry.
pub ReachApart-single : (id : String) {s : Handlings} → ReachApart id s → copies id s.ids ≤ 1
ReachApart-single id r = omega (arith, ReachApart-adds id r)
