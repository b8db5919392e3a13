-- ===== src/Setup/Consistency.antt =====
-- Whether what is shown belongs together, and to the chain that was chosen.
use blockcore_gateway.Common.{
  drop, ◌≡◌, ◌≢◌, ◌⊎◌, inl, inr, refl, subst, Bool, Option, none, some, List, [], ◌∷◌, ◌++◌, arith,
  All, All-append, length,
}
use native.Mathlib.Nat.{add-zero}
use blockcore_gateway.Js.Text.{Text, text}
use blockcore_gateway.Js.Text.Search.{equal_iff, drop-add}
use blockcore_gateway.Setup.{
  ApiUrl, no_indexer, no_url, has_url, Config, Setup, blockcore, new, set_chain, setup_url, base_of,
  on_setup, on_resumed, Step, select, arrive, fail, resume, Reach, here, next,
}

asked_downloads :
    (a b : Text) (s : Setup)
    → s.current ≢ a
    → s.current ≢ b
    → s.downloads ≡ []
    → (set_chain b (set_chain a s)).downloads ≡ a ∷ b ∷ []
unfolding set_chain
asked_downloads a b s na nb ds = ground (arith, equal_iff s.current a, equal_iff s.current b)

asked_resumed :
    (a b : Text) (s : Setup) → s.resumed ≡ [] → (set_chain b (set_chain a s)).resumed ≡ []
unfolding set_chain
asked_resumed a b s r = ground arith

last_unit : (url : Text) → drop (length url) (url ++ text "/") ≡ text "/"
last_unit url = rw (← add-zero (length url)) (drop-add 0 url (text "/"))

ApiUrl-cases : (a : ApiUrl) → (a ≡ no_indexer) ⊎ ((a ≡ no_url) ⊎ ((u : Text) × (a ≡ has_url u)))
ApiUrl-cases no_indexer = inl refl
ApiUrl-cases no_url = inr (inl refl)
ApiUrl-cases (has_url u) = inr (inr (u, refl))

module _ (local : Bool) (server : Text → Option Config) where
  -- The setup that arrived last: that of the last call that goes on, or the one that is shown.
  abbrev pub newest : Option Config → List (Text × Config) → Option Config
  newest shown [] = shown
  newest shown ((chain, c) ∷ rest) = newest (some c) rest

  abbrev pub base_for : Option Config → Option Text
  base_for none = none
  base_for (some c) = elim c.api_url [ has_url u ↦ some (base_of local u) | _ ↦ none ]

  -- A setup of the server has an indexer, but no url.
  abbrev pub Undefined : Type 0
  Undefined =
      (chain : Text) × (c : Config) × (server (setup_url chain) ≡ some c) × (c.api_url ≡ no_url)

  abbrev IsServed : Text × Config → Type 0
  IsServed (chain, c) = server (setup_url chain) ≡ some c

  -- What is shown is the setup of the current chain.
  abbrev pub IsShown : Setup → Type 0
  IsShown s =
      ((s.loaded ≡ none) × (s.current ≡ blockcore))
      ⊎ ((c : Config) × (s.loaded ≡ some c) × (server (setup_url s.current) ≡ some c))

  record Inv (s : Setup) : Type 0 where
    base : (s.base_url ≡ base_for (newest s.loaded s.resumed)) ⊎ ((s.base_url ≡ none) × Undefined)
    served : All IsServed s.resumed
    shown : IsShown s

  newest-append :
      (shown : Option Config) (rs : List (Text × Config)) (chain : Text) (c : Config)
      → newest shown (rs ++ (chain, c) ∷ []) ≡ some c
  newest-append shown [] chain c = refl
  newest-append shown ((d, x) ∷ rs) chain c = newest-append (some x) rs chain c

  set_chain-Inv : (chain : Text) (s : Setup) → Inv s → Inv (set_chain chain s)
  unfolding set_chain
  set_chain-Inv chain s v = record {
    base = ground arith;
    served = ground arith;
    shown = ground (arith, equal_iff s.current chain);
  }

  on_setup-base :
      (chain : Text) (c : Config) (s : Setup)
      → server (setup_url chain) ≡ some c
      → Inv s
      → let t = on_setup local chain c s in
        (t.base_url ≡ base_for (newest t.loaded t.resumed)) ⊎ ((t.base_url ≡ none) × Undefined)
  unfolding on_setup
  on_setup-base chain c s e v = elim (ApiUrl-cases c.api_url) [
    | inl k ↦ rw (k, on_setup) v.base
    | inr (inl k) ↦ rw (k, on_setup) (inr (refl, (chain, c, e, k)))
    | inr (inr (u, k)) ↦
        rw (k, on_setup, newest-append s.loaded s.resumed chain c) (inl (rw (base_for, k) refl))
  ]

  on_setup-Inv :
      (chain : Text) (c : Config) (s : Setup)
      → server (setup_url chain) ≡ some c
      → Inv s
      → Inv (on_setup local chain c s)
  unfolding on_setup
  on_setup-Inv chain c s e v = record {
    base = on_setup-base chain c s e v;
    served = ground (arith, All-append IsServed s.resumed ((chain, c) ∷ []) v.served (e, tt));
    shown = ground arith;
  }

  Step-Inv : {s t : Setup} → Step local server s t → Inv s → Inv t
  unfolding on_resumed
  Step-Inv (select chain s) v = set_chain-Inv chain s v
  Step-Inv (arrive chain c before behind s d e) v =
      on_setup-Inv chain c _ e (record { base = v.base; served = v.served; shown = v.shown })
  Step-Inv (fail chain before behind s d e) v = record {
    base = v.base;
    served = v.served;
    shown = v.shown;
  }
  Step-Inv (resume chain c rest s r) v =
      let h = rw r at v.served in
      record { base = ground arith; served = h.1; shown = inr (c, refl, h.0) }

  Reach-Inv : {s : Setup} → Reach local server new s → Inv s
  unfolding new
  Reach-Inv here = record { base = inl refl; served = tt; shown = inl (refl, refl) }
  Reach-Inv (next r st) = Step-Inv st (Reach-Inv r)

  -- However calls of `setChain` overlap, whenever none is about to go on, what is shown is the setup of the current
  -- chain, or no chain but the first has been shown; and the base url is that of the same setup, or undefined, which
  -- takes a setup of the server that has an indexer without a url.
  pub Reach-consistent :
      {s : Setup}
      → Reach local server new s
      → s.resumed ≡ []
      → IsShown s × ((s.base_url ≡ base_for s.loaded) ⊎ ((s.base_url ≡ none) × Undefined))
  Reach-consistent {s} r e =
      let v = Reach-Inv r in
      (
        v.shown,
        subst
            (λ rs. (s.base_url ≡ base_for (newest s.loaded rs)) ⊎ ((s.base_url ≡ none) × Undefined))
            e v.base,
      )

  pub Reach-trans :
      {s t u : Setup} → Reach local server s t → Reach local server t u → Reach local server s u
  Reach-trans r here = r
  Reach-trans r (next q st) = next (Reach-trans r q) st

  -- A setup that arrives while no other call is about to go on.
  unfoldable pub after_load : Text → Config → Text → List Text → Setup → Setup
  after_load chain c url rest s =
      on_resumed chain c
        (record s { downloads = rest; base_url = some (base_of local url); resumed = [] })

  on_setup-some :
      (chain : Text) (c : Config) (url : Text) (s : Setup)
      → c.api_url ≡ has_url url
      → on_setup local chain c s
        ≡ record s { base_url = some (base_of local url); resumed = s.resumed ++ (chain, c) ∷ [] }
  unfolding on_setup
  on_setup-some chain c url s e = ground arith

  pub Reach-after_load :
      (chain : Text) (c : Config) (url : Text) (before behind : List Text) (s : Setup)
      → s.downloads ≡ before ++ chain ∷ behind
      → server (setup_url chain) ≡ some c
      → c.api_url ≡ has_url url
      → s.resumed ≡ []
      → Reach local server s (after_load chain c url (before ++ behind) s)
  unfolding after_load
  Reach-after_load chain c url before behind s d e u r =
      let waiting = record s { downloads = before ++ behind } in
      let step : Step local server s (on_setup local chain c waiting) =
        arrive chain c before behind s d e in
      let arrived = rw (on_setup-some chain c url waiting u) at step in
      next (next here arrived) (resume chain c [] _ (rw r refl))

  -- Where the chains `a` and then `b` are chosen and the setup of `a` arrives last, the service ends at
  -- `a`, with nothing left to do: the later choice is lost.
  pub stale_choice :
      (a b : Text) (c d : Config) (u w : Text) (s : Setup)
      → server (setup_url a) ≡ some c
      → server (setup_url b) ≡ some d
      → c.api_url ≡ has_url u
      → d.api_url ≡ has_url w
      → s.current ≢ a
      → s.current ≢ b
      → s.downloads ≡ []
      → s.resumed ≡ []
      → (t : Setup) × Reach local server (set_chain b (set_chain a s)) t
        × (t.current ≡ a)
        × (t.loaded ≡ some c)
        × (t.downloads ≡ [])
        × (t.resumed ≡ [])
  unfolding after_load on_resumed
  stale_choice a b c d u w s ea eb ua ub na nb ds rs =
      let asked = set_chain b (set_chain a s) in
      let one = after_load b d w (a ∷ []) asked in
      let two = after_load a c u [] one in
      (
        two,
        Reach-trans
            (Reach-after_load b d w (a ∷ []) [] asked (asked_downloads a b s na nb ds) eb ub
              (asked_resumed a b s rs))
            (Reach-after_load a c u [] [] one refl ea ua refl),
        refl,
        refl,
        refl,
        refl,
      )
