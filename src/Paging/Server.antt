-- ===== src/Paging/Server.antt =====
-- A server that hands out a list page by page.
use blockcore_gateway.Common.{
  ℕ, zero, suc, ◌+◌, ◌-◌, ◌≤◌, ◌≡◌, refl, false, Option, none, some, List, [], ◌∷◌, ◌++◌, length,
  arith, sym,
}
use native.Mathlib.Nat.{add-suc, suc-add, zero-add}
use mathlib.Core.List.{append-nil, append_assoc}
use blockcore_gateway.Js.Text.{Text, text}
use blockcore_gateway.LinkHeader.{link, parse_link_header}
use blockcore_gateway.Paging.{
  Pager, Page, Kind, page_base, present, new, or_empty, address_kind, update,
  update_address_transactions, scroll, scrolls,
}

module _ {ℓ} {A : Type ℓ} (k : Kind A) (base : Text) (server : Text → Option (Page A)) where
  -- From the link `url` on, the server's pages are the listed ones: each names the next in its
  -- `Link` header, and the last names none.
  pub data Serves : Option Text → List (List A) → Type ℓ where
    last : {url : Option Text} → present url ≡ none → Serves url []
    more :
        {url : Option Text} {xs : List A} {rest : List (List A)} (u header : Text) (page : Page A)
        → present url ≡ some u
        → server (page_base base ++ u) ≡ some page
        → page.link_header ≡ some header
        → page.body ≡ some xs
        → Serves (link k.relation (parse_link_header header)) rest
        → Serves url (xs ∷ rest)

  abbrev pub arranged : List (List A) → List A
  arranged [] = []
  arranged (xs ∷ rest) = k.arrange xs ++ arranged rest

  -- What the component shows, `loading` included, when `ys` has been read in `n` pages and all is read.
  pub record Complete (ys : List A) (n : ℕ) (p : Pager A) : Type ℓ where
    pub shown : or_empty p.items ≡ ys
    pub counted : p.count ≡ n
    pub at_end : present p.next ≡ none
    pub idle : p.loading ≡ false

  -- One scroll, or first load, reads one page.
  update-more :
      (p : Pager A) (url : Option Text) (u header : Text) (page : Page A) (xs : List A)
      → present url ≡ some u
      → server (page_base base ++ u) ≡ some page
      → page.link_header ≡ some header
      → page.body ≡ some xs
      → update k base server url p ≡ (
        record p {
          items = some (or_empty p.items ++ k.arrange xs);
          next = link k.relation (parse_link_header header);
          total = page.pagination_total;
          count = suc p.count;
          requested = p.requested ++ (page_base base ++ u) ∷ [];
        },
        none,
      )
  unfolding update
  update-more p url u header page xs e s l b = ground arith

  update-last :
      (p : Pager A) (url : Option Text)
      → present url ≡ none
      → update k base server url p ≡ (p, none)
  unfolding update
  update-last p url e = ground arith

  after_scroll : Pager A → Pager A
  after_scroll p = record p { loading = false; scheduled = suc p.scheduled - 1 }

  scroll-last :
      (p : Pager A) → present p.next ≡ none → scroll k base server p ≡ (after_scroll p, none)
  unfolding scroll after_scroll
  scroll-last p e = ground arith

  scroll-more :
      (p : Pager A) (u header : Text) (page : Page A) (xs : List A)
      → present p.next ≡ some u
      → server (page_base base ++ u) ≡ some page
      → page.link_header ≡ some header
      → page.body ≡ some xs
      → scroll k base server p ≡ (
        record (after_scroll p) {
          items = some (or_empty p.items ++ k.arrange xs);
          next = link k.relation (parse_link_header header);
          total = page.pagination_total;
          count = suc p.count;
          requested = p.requested ++ (page_base base ++ u) ∷ [];
        },
        none,
      )
  unfolding scroll after_scroll
  scroll-more p u header page xs e s l b = ground arith

  scrolls-Complete :
      (n : ℕ) (p : Pager A) (url : Option Text) (rest : List (List A))
      → Serves url rest
      → p.next ≡ url
      → length rest ≤ n
      → p.loading ≡ false
      → Complete
          (or_empty p.items ++ arranged rest)
          (p.count + length rest)
          (scrolls n k base server p)
  unfolding scrolls after_scroll
  scrolls-Complete zero p url rest (last e) q le idle = record {
    shown = sym (append-nil _);
    counted = omega arith;
    at_end = ground arith;
    idle = idle;
  }
  scrolls-Complete zero p url rest (more u header page e s l b pages) q le idle =
      absurd (omega arith)
  scrolls-Complete (suc n) p url rest (last e) q le idle =
      rw (scroll-last p (ground arith))
        (scrolls-Complete n (after_scroll p) url [] (last e) q (omega arith) refl)
  scrolls-Complete (suc n) p url (xs ∷ rest) (more u header page e s l b pages) q le idle =
      rw
        (
          scroll-more p u header page xs (ground arith) s l b,
          add-suc p.count (length rest),
          ← suc-add p.count (length rest),
          ← append_assoc (or_empty p.items) (k.arrange xs) (arranged rest),
        )
        (scrolls-Complete n _ _ rest pages refl (omega arith) refl)

  -- After the first load of a url and enough scrolls to the bottom, one at a time, the component shows the
  -- whole of what the server hands out page by page, each page arranged, once and in order; it counts the pages, has no
  -- next link and is not loading.
  pub update-scrolls-Complete :
      (url : Option Text) (pages : List (List A)) (n : ℕ)
      → Serves url pages
      → length pages ≤ suc n
      → Complete
          (arranged pages)
          (length pages)
          (scrolls n k base server (update k base server url new).0)
  unfolding new
  update-scrolls-Complete url pages n (last e) le =
      rw (update-last new url e)
        (scrolls-Complete n new none [] (last refl) refl (omega arith) refl)
  update-scrolls-Complete url (xs ∷ rest) n (more u header page e s l b pages) le =
      rw
        (
          update-more new url u header page xs e s l b,
          ← zero-add (suc (length rest)),
          add-suc zero (length rest),
          ← suc-add zero (length rest),
        )
        (scrolls-Complete n _ _ rest pages refl (omega arith) refl)

-- The same for the transactions of an address.
pub update_address_transactions-more {ℓ} :
    {A : Type ℓ} (base : Text) (server : Text → Option (Page A)) (p : Pager A) (url : Option Text)
    (u header : Text) (page : Page A) (xs : List A)
    → present url ≡ some u
    → server (page_base base ++ u) ≡ some page
    → page.link_header ≡ some header
    → page.body ≡ some xs
    → update_address_transactions base server url p ≡ (
      record p {
        items = some (or_empty p.items ++ xs);
        next = link (text "previous") (parse_link_header header);
        total = page.pagination_total;
        count = suc p.count;
        requested = p.requested ++ (page_base base ++ u) ∷ [];
      },
      none,
    )
unfolding update_address_transactions
update_address_transactions-more base server = update-more address_kind base server
