-- ===== src/HubSelection/Settled.antt =====
-- What is selected when the timeouts have run.
use blockcore_gateway.Common.{
  ◌≡◌, ◌≢◌, refl, ap, ◌∙◌, length, length-append, String, Bool, true, false, Option, none, some,
  List, [], ◌∷◌, ◌++◌, arith,
}
use blockcore_gateway.HubSelection.{
  SetupPage, new, select, on_timeout, choose, timeout, Reach, here, next,
}

abbrev last_or : String → List String → String
last_or d [] = d
last_or d (t ∷ ts) = last_or t ts

last_or-append : (d : String) (ts : List String) (v : String) → last_or d (ts ++ v ∷ []) ≡ v
last_or-append d [] v = refl
last_or-append d (t ∷ ts) v = last_or-append t ts v

-- What will be selected in the end.
abbrev target : SetupPage → Option String
target s = elim s.timers [ [] ↦ s.selected | t ∷ ts ↦ some (last_or t ts) ]

-- The hub that was chosen last, where the first one counts as chosen at the start.
abbrev pub last_choice : {s t : SetupPage} → Reach s t → String
last_choice here = "local"
last_choice (next r (choose value s)) = value
last_choice (next r (timeout value rest s e)) = last_choice r

target-append :
    (ts : List String) (v : String) (o : Option String) (l : Bool)
    → target (record { loading = l; selected = o; timers = ts ++ v ∷ [] }) ≡ some v
target-append [] v o l = refl
target-append (t ∷ ts) v o l = rw (last_or-append t ts v) refl

target-timeout :
    (s : SetupPage) (v : String) (rest : List String)
    → s.timers ≡ v ∷ rest
    → target (on_timeout v (record s { timers = rest })) ≡ target s
unfolding on_timeout
target-timeout s v [] e = ground arith
target-timeout s v (t ∷ rest) e = ground arith

append-ne_nil : (ts : List String) (v : String) → ts ++ v ∷ [] ≢ []
append-ne_nil ts v e = absurd (omega (arith, ap length e, length-append ts (v ∷ [])))

Reach-target : {s : SetupPage} (r : Reach new s) → target s ≡ some (last_choice r)
unfolding new select
Reach-target here = refl
Reach-target (next r (choose value s)) = target-append s.timers value none true
Reach-target (next r (timeout value rest s e)) = target-timeout s value rest e ∙ Reach-target r

Reach-idle : {s : SetupPage} → Reach new s → s.timers ≡ [] → s.loading ≡ false
unfolding new select on_timeout
Reach-idle here e = refl
Reach-idle (next r (choose value s)) e = absurd (append-ne_nil s.timers value e)
Reach-idle (next r (timeout value rest s f)) e = refl

-- However many hubs are chosen, and however the choices overlap with the timeouts: once no timeout is left the
-- page is not loading, and the hub that was chosen last is selected.
settled :
    {s : SetupPage} (r : Reach new s)
    → s.timers ≡ []
    → (s.loading ≡ false) × (s.selected ≡ some (last_choice r))
settled {s} r e = (Reach-idle r e, ground (arith, Reach-target r))
