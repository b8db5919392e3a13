-- ===== src/Paging/Accounted.antt =====
-- Which pages are listed, and how often, whatever order requests, responses and chains come in.
use mathlib.Core.List.{append_assoc, append-nil}
use blockcore_gateway.Common.{
  ℕ, suc, ◌+◌, Option, none, some, List, [], ◌∷◌, ◌++◌, ◌≡◌, ◌⊎◌, refl, sym, ap, ap₂, ◌∙◌,
  if◌then◌else◌, length, length-append, arith, inl, inr, Option-cases,
}
use blockcore_gateway.Js.Text.{Text, text, equal}
use blockcore_gateway.LinkHeader.{link, parse_link_header}
use blockcore_gateway.Api.{type_error, syntax_error}
use blockcore_gateway.Paging.{
  Pager, Page, Block, blocks_kind, page_base, present, new, begin, on_response, on_body, or_empty,
  on_scroll,
}
use blockcore_gateway.Paging.Chains.{first_blocks}
use blockcore_gateway.Paging.Interleaved.{
  Browsing, page_opened, ask_blocks, respond_to, read_body_of, Step, set_base_url, choose,
  scroll_down, run_timeout, respond, no_answer, body_there, Reach, here, next,
}

abbrev pub times : Text → List Text → ℕ
times u [] = 0
times u (v ∷ vs) = (if equal v u then 1 else 0) + times u vs

times-append : (u : Text) (vs ws : List Text) → times u (vs ++ ws) ≡ times u vs + times u ws
times-append u [] ws = omega arith
times-append u (v ∷ vs) ws = omega (arith, times-append u vs ws)

-- A list with one entry taken out.
times-taken :
    (u v : Text) (before after us : List Text)
    → us ≡ before ++ v ∷ after
    → times u us ≡ times u (before ++ after) + times u (v ∷ [])
times-taken u v before after us e =
    ap (times u) e ∙ omega (arith, times-append u before (v ∷ after), times-append u before after)

responded :
    (page : Page Block) (p : Pager Block)
    → ((page.link_header ≡ none)
        × (on_response blocks_kind page p
            ≡ (record p { total = page.pagination_total }, some type_error)))
      ⊎ ((next : Option Text) × (on_response blocks_kind page p
            ≡ (record p { total = page.pagination_total; next = next }, none)))
unfolding on_response
responded page p = elim (Option-cases page.link_header) [
  | inl e ↦ inl (e, rw (on_response, e) refl)
  | inr (l, e) ↦ inr (link (text "previous") (parse_link_header l), rw (on_response, e) refl)
]

body_read :
    (page : Page Block) (p : Pager Block)
    → (on_body blocks_kind page p ≡ (p, some syntax_error))
      ⊎ ((list : List Block) × (page.body ≡ some list)
          × (on_body blocks_kind page p ≡ (
            record p {
              items = some (or_empty p.items ++ blocks_kind.arrange list);
              count = suc p.count;
            },
            none,
          )))
unfolding on_body
body_read page p = elim (Option-cases page.body) [
  | inl e ↦ inl (rw (on_body, e) refl)
  | inr (l, e) ↦ inr (l, e, rw (on_body, e) refl)
]

module _ (server : Text → Option (Page Block)) where
  -- What is listed of the answer to a url.
  abbrev pub listed_of : Text → List Block
  listed_of u = elim (server u) [
    | none ↦ []
    | some page ↦ elim page.body [ none ↦ [] | some list ↦ blocks_kind.arrange list ]
  ]

  abbrev pub all_listed : List Text → List Block
  all_listed [] = []
  all_listed (u ∷ us) = listed_of u ++ all_listed us

  all_listed-append : (us vs : List Text) → all_listed (us ++ vs) ≡ all_listed us ++ all_listed vs
  all_listed-append [] vs = refl
  all_listed-append (u ∷ us) vs =
      ap (listed_of u ++◌) (all_listed-append us vs)
      ∙ sym (append_assoc (listed_of u) (all_listed us) (all_listed vs))

  listed :
      {u : Text} (page : Page Block) (l : List Block)
      → page.body ≡ some l
      → server u ≡ some page
      → listed_of u ≡ blocks_kind.arrange l
  listed page l there a = rw (listed_of, a, there) refl

  pub record IsAccounted (b : Browsing) : Type 0 where
    pub each :
        (u : Text)
        → times u b.pager.requested
          ≡ times u b.waiting + times u b.reading + times u b.failed + times u b.shown
    pub items : or_empty b.pager.items ≡ all_listed b.shown
    pub pages : b.pager.count ≡ length b.shown

  ask_blocks-IsAccounted :
      (url : Option Text) (b : Browsing) → IsAccounted b → IsAccounted (ask_blocks url b)
  unfolding ask_blocks begin
  ask_blocks-IsAccounted url b h = elim (Option-cases b.base) [
    | inl n ↦ rw (ask_blocks, n) h
    | inr (base, n) ↦ elim (Option-cases (present url)) [
      | inl e ↦
          rw (ask_blocks, begin, n, e) (record { each = h.each; items = h.items; pages = h.pages })
      | inr (v, e) ↦
          rw (ask_blocks, begin, n, e)
            (record {
              each = λ u. omega (
                arith,
                h.each u,
                times-append u b.pager.requested ((page_base base ++ v) ∷ []),
                times-append u b.waiting ((page_base base ++ v) ∷ []),
              );
              items = h.items;
              pages = h.pages;
            })
    ]
  ]

  respond-IsAccounted :
      (b : Browsing) (before after : List Text) (u : Text) (page : Page Block)
      → b.waiting ≡ before ++ u ∷ after
      → IsAccounted b
      → IsAccounted (respond_to u page (before ++ after) b)
  unfolding respond_to
  respond-IsAccounted b before after u page w h = elim (responded page b.pager) [
    | inl (_, e) ↦
        rw (respond_to, ap (λ r. r.1) e, ap (λ r. r.0) e)
          (record {
            each = λ v. omega (
              arith,
              h.each v,
              times-taken v u before after b.waiting w,
              times-append v b.failed (u ∷ []),
            );
            items = h.items;
            pages = h.pages;
          })
    | inr (l, e) ↦
        rw (respond_to, ap (λ r. r.1) e, ap (λ r. r.0) e)
          (record {
            each = λ v. omega (
              arith,
              h.each v,
              times-taken v u before after b.waiting w,
              times-append v b.reading (u ∷ []),
            );
            items = h.items;
            pages = h.pages;
          })
  ]

  body-IsAccounted :
      (b : Browsing) (before after : List Text) (u : Text) (page : Page Block)
      → b.reading ≡ before ++ u ∷ after
      → server u ≡ some page
      → IsAccounted b
      → IsAccounted (read_body_of u page (before ++ after) b)
  unfolding read_body_of
  body-IsAccounted b before after u page w a h = elim (body_read page b.pager) [
    | inl e ↦
        rw (read_body_of, ap (λ r. r.1) e, ap (λ r. r.0) e)
          (record {
            each = λ v. omega (
              arith,
              h.each v,
              times-taken v u before after b.reading w,
              times-append v b.failed (u ∷ []),
            );
            items = h.items;
            pages = h.pages;
          })
    | inr (l, there, e) ↦
        rw (read_body_of, ap (λ r. r.1) e, ap (λ r. r.0) e)
          (record {
            each = λ v. omega (
              arith,
              h.each v,
              times-taken v u before after b.reading w,
              times-append v b.shown (u ∷ []),
            );
            items =
                ap₂ ◌++◌ h.items (sym (append-nil (listed_of u) ∙ listed page l there a))
                ∙ sym (all_listed-append b.shown (u ∷ []));
            pages = omega (arith, h.pages, length-append b.shown (u ∷ []));
          })
  ]

  Step-IsAccounted : {b c : Browsing} → Step server b c → IsAccounted b → IsAccounted c
  unfolding on_scroll
  Step-IsAccounted (set_base_url b base) h = record {
    each = h.each;
    items = h.items;
    pages = h.pages;
  }
  Step-IsAccounted (choose b) h = ask_blocks-IsAccounted (some first_blocks) b h
  Step-IsAccounted (scroll_down b) h = record { each = h.each; items = h.items; pages = h.pages }
  Step-IsAccounted (run_timeout b n s) h =
      ask_blocks-IsAccounted b.pager.next (record b { pager = record b.pager { scheduled = n } })
        (record { each = h.each; items = h.items; pages = h.pages })
  Step-IsAccounted (respond b before after u page w a) h =
      respond-IsAccounted b before after u page w h
  Step-IsAccounted (no_answer b before after u w a) h = record {
    each = λ v. omega (
      arith,
      h.each v,
      times-taken v u before after b.waiting w,
      times-append v b.failed (u ∷ []),
    );
    items = h.items;
    pages = h.pages;
  }
  Step-IsAccounted (body_there b before after u page w a) h =
      body-IsAccounted b before after u page w a h

  page_opened-IsAccounted : (base : Option Text) → IsAccounted (page_opened base)
  unfolding page_opened new
  page_opened-IsAccounted base = record { each = λ u. omega arith; items = refl; pages = refl }

  -- Whatever order chains are chosen in, requests are answered in and the user scrolls in: the list holds the pages of
  -- the urls that are through, one after the other and each with its newest block first, and their number is counted. A
  -- url is through, has failed, waits or is read as often as it was asked for, together: so no page is listed that was
  -- not asked for, and none more often than it was asked for.
  pub Reach-IsAccounted :
      (base : Option Text) {b : Browsing} → Reach server (page_opened base) b → IsAccounted b
  Reach-IsAccounted base here = page_opened-IsAccounted base
  Reach-IsAccounted base (next r s) = Step-IsAccounted s (Reach-IsAccounted base r)
