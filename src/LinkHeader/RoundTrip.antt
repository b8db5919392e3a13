-- ===== src/LinkHeader/RoundTrip.antt =====
-- Parsing the header that a server writes.
use native.Mathlib.Nat.{add-zero, add_assoc}
use mathlib.Core.List.{append-nil, append_assoc, reverse, reverse-cons, reverse-append}
use blockcore_gateway.Common.{
  drop, ℕ, suc, ◌+◌, true, some, List, [], ◌∷◌, ◌++◌, ◌≡◌, ◌≢◌, refl, ap, length, arith, All, ◌∙◌,
  Bool-cases, ap₂, All-reverse, map, inl, inr, All-append,
}
use blockcore_gateway.Js.Array.{take-append_length}
use blockcore_gateway.Js.Text.{Text, text, starts_with, index_of, replace, split_from, split}
use blockcore_gateway.Js.Text.Search.{equal_iff, Lacks, index_of-behind, split_from-part, drop-add}
use blockcore_gateway.LinkHeader.{Links, link, key_of, value_of, assign_sections, parse_link_header}

-- A relation's name and its target, as a server has them.
abbrev pub Link : Type 0
Link = Text × Text

-- Neither text holds a comma, `>` or `"`.
abbrev pub IsPlain : Link → Type 0
IsPlain (rel, url) = Lacks b',' rel × Lacks 34 rel × Lacks b',' url × Lacks b'>' url × Lacks 34 url

abbrev pub print_link : Link → Text
print_link (rel, url) = text "<" ++ (url ++ (text ">; rel=\"" ++ (rel ++ text "\"")))

-- The links, each behind a comma and a blank but the first.
abbrev pub print_more : List Link → Text
print_more [] = []
print_more (l ∷ ls) = text ", " ++ (print_link l ++ print_more ls)

abbrev pub print_links : Link → List Link → Text
print_links l ls = print_link l ++ print_more ls

starts_with-Lacks : (q : ℕ) (p s : Text) → starts_with p s ≡ true → Lacks q s → Lacks q p
starts_with-Lacks q [] s e h = tt
starts_with-Lacks q (x ∷ p) [] e h = cc
starts_with-Lacks q (x ∷ p) (y ∷ s) e (n, h) = ground (arith, starts_with-Lacks q p s)

starts_with-within :
    (b : ℕ) (p s t : Text) → Lacks b p → starts_with p (s ++ b ∷ t) ≡ true → starts_with p s ≡ true
starts_with-within b [] s t h e = refl
starts_with-within b (x ∷ p) [] t (n, h) e = ground arith
starts_with-within b (x ∷ p) (y ∷ s) t (n, h) e = ground (arith, starts_with-within b p s t h)

-- A pattern with `q` in it and no `b` is not found before `b` in a text without `q`.
index_of-beyond :
    (q b : ℕ) (p s t : Text) (k : ℕ)
    → Lacks b p
    → ¬ Lacks q p
    → Lacks q s
    → index_of p (b ∷ t) ≡ some k
    → index_of p (s ++ b ∷ t) ≡ some (length s + k)
unfolding index_of
index_of-beyond q b p [] t k hb hq h e = e ∙ ap some (omega arith)
index_of-beyond q b p (c ∷ s) t k hb hq (n, h) e =
    elim (Bool-cases (starts_with p (c ∷ s ++ b ∷ t))) [
      | inl hit ↦
          absurd
            (hq (starts_with-Lacks q p (c ∷ s) (starts_with-within b p (c ∷ s) t hb hit) (n, h)))
      | inr miss ↦ ground (arith, index_of-beyond q b p s t k hb hq h e)
    ]

module _ (rel url : Text) (h : IsPlain (rel, url)) where
  abbrev rest : Text
  rest = text ">; rel=\"" ++ (rel ++ text "\"")

  value_of-print_link : value_of (print_link (rel, url)) ≡ url
  unfolding value_of index_of
  value_of-print_link =
      rw (index_of-behind b'>' [] (b'<' ∷ url) rest (omega arith, h.3) refl)
        (rw (add-zero (suc (length url))) (ground (arith, take-append_length url rest)))

  index_of-rel : index_of (text "rel=\"") (print_link (rel, url)) ≡ some (length (b'<' ∷ url) + 3)
  unfolding index_of
  index_of-rel =
      index_of-beyond 34 b'>' (text "rel=\"") (b'<' ∷ url) _ 3 (omega arith) (λ q. q.1.1.1.1.0 refl)
        (omega arith, h.4) refl

  replace-quote : replace (text "\"") [] (rel ++ text "\"") ≡ rel
  unfolding replace
  replace-quote =
      rw (index_of-behind 34 [] rel (text "\"") h.1 refl, replace)
        (ground
          (arith, take-append_length rel (text "\""), drop-add 1 rel (text "\""), append-nil rel))

  drop-rel : drop (length (b'<' ∷ url) + 3 + 5) (print_link (rel, url)) ≡ rel ++ text "\""
  drop-rel = rw (add_assoc (length (b'<' ∷ url)) 3 5) (drop-add 8 (b'<' ∷ url) rest)

  key_of-print_link : key_of (print_link (rel, url)) ≡ rel
  unfolding key_of
  key_of-print_link = rw (index_of-rel, drop-rel) replace-quote

print_link-Lacks : (l : Link) → IsPlain l → Lacks b',' (print_link l)
print_link-Lacks (rel, url) h = (
  omega arith,
  All-append (λ d. d ≢ b',') url _ h.2
      (All-append (λ d. d ≢ b',') (text ">; rel=\"") _ (omega arith)
        (All-append (λ d. d ≢ b',') rel (text "\"") h.0 (omega arith))),
)

-- The sections that a printed header is split into.
split_from-print_more :
    (s : Text) (ls : List Link)
    → Lacks b',' s
    → All IsPlain ls
    → split_from (text ", ") 0 [] (s ++ print_more ls) ≡ s ∷ map print_link ls
unfolding split_from
split_from-print_more s [] h hs = split_from-part b',' (text " ") [] s [] h
split_from-print_more s (l ∷ ls) h (p, hs) =
    split_from-part b',' (text " ") [] s (print_more (l ∷ ls)) h
    ∙ ap (s ∷◌) (split_from-print_more (print_link l) ls (print_link-Lacks l p) hs)

assign_sections-print :
    (links : Links) (ls : List Link)
    → All IsPlain ls
    → assign_sections links (map print_link ls) ≡ reverse ls ++ links
unfolding assign_sections
assign_sections-print links [] h = refl
assign_sections-print links ((rel, url) ∷ ls) (p, h) =
    ap₂ (λ k v. assign_sections ((k, v) ∷ links) (map print_link ls)) (key_of-print_link rel url p)
      (value_of-print_link rel url p)
    ∙ rw (reverse-cons (rel, url) ls, append_assoc (reverse ls) ((rel, url) ∷ []) links)
        (assign_sections-print ((rel, url) ∷ links) ls h)

-- Parsing the header that lists plain links, each as `<url>; rel="name"` and separated by a comma and a
-- blank, assigns exactly those links, in their order: the last one is the latest.
pub parse_link_header-print_links :
    (l : Link) (ls : List Link)
    → All IsPlain (l ∷ ls)
    → parse_link_header (print_links l ls) ≡ reverse (l ∷ ls)
unfolding parse_link_header split
parse_link_header-print_links l ls (p, h) =
    rw (split_from-print_more (print_link l) ls (print_link-Lacks l p) h)
      (assign_sections-print [] (l ∷ ls) (p, h) ∙ append-nil _)

reverse-middle :
    (l : Link) (before behind : List Link)
    → reverse (before ++ l ∷ behind) ≡ reverse behind ++ l ∷ reverse before
reverse-middle l before behind =
    reverse-append before (l ∷ behind)
    ∙ ap (◌++ reverse before) (reverse-cons l behind)
    ∙ append_assoc (reverse behind) (l ∷ []) (reverse before)

IsOther : Text → Link → Type 0
IsOther k l = l.0 ≢ k

link-skip : (k : Text) (ls more : Links) → All (IsOther k) ls → link k (ls ++ more) ≡ link k more
unfolding link IsOther
link-skip k [] more h = refl
link-skip k ((j, v) ∷ ls) more (n, h) = ground (arith, equal_iff j k, link-skip k ls more h)

-- A link is found under its name, unless a later link of the header has that name too.
pub link-print_links :
    (l : Link) (ls before behind : List Link) (rel url : Text)
    → l ∷ ls ≡ before ++ (rel, url) ∷ behind
    → All IsPlain (l ∷ ls)
    → All (λ m. m.0 ≢ rel) behind
    → link rel (parse_link_header (print_links l ls)) ≡ some url
unfolding link IsOther
link-print_links l ls before behind rel url e h n =
    ap (link rel) (
      parse_link_header-print_links l ls h ∙ ap reverse e ∙ reverse-middle (rel, url) before behind)
    ∙ link-skip rel (reverse behind) ((rel, url) ∷ reverse before)
        (All-reverse (IsOther rel) behind n)
    ∙ ground (arith, equal_iff rel rel)
