-- ===== src/LinkedList/Ring.antt =====
-- The lists of kernel/inc/common/list.h against sequences of entries.
use k_os.Base.{ℕ, ◌≡◌, refl, ◌≢◌, ◌∙◌, sym, true, ◌↔◌, List, [], ◌∷◌, ◌++◌, arith, All}
use k_os.LinkedList.{
  Links, set_next, set_prev, list_empty, list_insert, list_add, list_join, list_rm,
}

-- The links run from `a` through the entries to `b`, forwards and backwards.
abbrev pub Chain : Links → ℕ → List ℕ → ℕ → Type 0
Chain l a [] b = (l.next a ≡ b) × (l.prev b ≡ a)
Chain l a (x ∷ xs) b = (l.next a ≡ x) × (l.prev x ≡ a) × Chain l x xs b

-- None of the entries is `a`.
abbrev pub Without : ℕ → List ℕ → Type 0
Without a xs = All (λ x. x ≢ a) xs

abbrev pub Distinct : List ℕ → Type 0
Distinct [] = Unit
Distinct (x ∷ xs) = Without x xs × Distinct xs

-- The list with the head `head` holds the entries `xs`, in order.
abbrev pub IsRing : Links → ℕ → List ℕ → Type 0
IsRing l head xs = Chain l head xs head × Distinct (head ∷ xs)

-- A chain stays where the links `next` change at `n` and `n'` only, and `prev` at `p` and `p'` only.
Chain-agree :
    (l l' : Links) (a b n n' p p' : ℕ) (xs : List ℕ)
    → ((x : ℕ) → x ≢ n → x ≢ n' → l'.next x ≡ l.next x)
    → ((x : ℕ) → x ≢ p → x ≢ p' → l'.prev x ≡ l.prev x)
    → Without n (a ∷ xs)
    → Without n' (a ∷ xs)
    → Without p (b ∷ xs)
    → Without p' (b ∷ xs)
    → Chain l a xs b
    → Chain l' a xs b
Chain-agree l l' a b n n' p p' [] next prev wn wn' wp wp' c =
    (next a wn.0 wn'.0 ∙ c.0, prev b wp.0 wp'.0 ∙ c.1)
Chain-agree l l' a b n n' p p' (x ∷ xs) next prev wn wn' wp wp' c = (
  next a wn.0 wn'.0 ∙ c.0,
  prev x wp.1.0 wp'.1.0 ∙ c.1,
  Chain-agree l l' x b n n' p p' xs next prev wn.1 wn'.1 (wp.0, wp.1.1) (wp'.0, wp'.1.1) c.2,
)

-- `list_empty` is true of a list of different entries exactly when it has none.
pub list_empty_iff :
    (l : Links) (head : ℕ) (xs : List ℕ) → IsRing l head xs → (list_empty l head ≡ true) ↔ (xs ≡ [])
unfolding list_empty
list_empty_iff l head [] r = (λ e. refl, λ e. ground (arith, r.0.0))
list_empty_iff l head (x ∷ xs) r = (λ e. absurd (ground (arith, e, r.0.0, r.1.0.0)), λ e. cc)

-- `list_add` of an entry that is not in a list of different entries, nor its head, puts it in front
-- of the others.
pub list_add-IsRing :
    (l : Links) (head new : ℕ) (xs : List ℕ)
    → IsRing l head xs
    → Without new (head ∷ xs)
    → IsRing (list_add l new head) head (new ∷ xs)
unfolding list_add list_insert set_next set_prev
list_add-IsRing l head new [] (c, d) w = (
  (ground arith, ground arith, (ground arith, ground arith)),
  (((λ e. w.0 (sym e)), tt), (tt, tt)),
)
list_add-IsRing l head new (x ∷ xs) (c, d) w = (
  (
    ground arith,
    ground arith,
    (
      ground (arith, c.0),
      ground (arith, c.0),
      Chain-agree l (list_add l new head) x head head new x new xs (λ y ne ne'. ground arith)
          (λ y ne ne'. ground (arith, c.0)) d.0 w.1 ((λ e. d.0.0 (sym e)), d.1.0) (w.0, w.1.1) c.2,
    ),
  ),
  (((λ e. w.0 (sym e)), d.0), (w.1, d.1)),
)

-- The last entry of a chain's part, and the first of what follows.
abbrev last : ℕ → List ℕ → ℕ
last a [] = a
last a (x ∷ xs) = last x xs

abbrev first : List ℕ → ℕ → ℕ
first [] b = b
first (y ∷ ys) b = y

last-ne : (a x : ℕ) (xs ys : List ℕ) → x ≢ a → Without a (xs ++ ys) → last x xs ≢ a
last-ne a x [] ys ne w = ne
last-ne a x (y ∷ xs) ys ne w = last-ne a y xs ys w.0 w.1

first-ne : (b x : ℕ) (xs ys : List ℕ) → x ≢ b → Without x (xs ++ ys) → first ys b ≢ x
first-ne b x [] [] ne w = λ e. ne (sym e)
first-ne b x [] (y ∷ ys) ne w = w.0
first-ne b x (z ∷ xs) ys ne w = first-ne b x xs ys ne w.1

-- A chain in which one entry is passed over.
Chain-skip :
    (l l' : Links) (a e b : ℕ) (xs ys : List ℕ)
    → ((x : ℕ) → x ≢ last a xs → l'.next x ≡ l.next x)
    → ((x : ℕ) → x ≢ first ys b → l'.prev x ≡ l.prev x)
    → l'.next (last a xs) ≡ first ys b
    → l'.prev (first ys b) ≡ last a xs
    → Distinct (a ∷ (xs ++ ys))
    → Without b (xs ++ ys)
    → Chain l a (xs ++ (e ∷ ys)) b
    → Chain l' a (xs ++ ys) b
Chain-skip l l' a e b [] [] next prev at at' d w c = (at, at')
Chain-skip l l' a e b [] (y ∷ ys) next prev at at' d w c = (
  at,
  at',
  Chain-agree l l' y b a a y y ys (λ x ne _. next x ne) (λ x ne _. prev x ne) d.0 d.0
      ((λ q. w.0 (sym q)), d.1.0) ((λ q. w.0 (sym q)), d.1.0) c.2.2,
)
Chain-skip l l' a e b (x ∷ xs) ys next prev at at' d w c = (
  next a (λ q. last-ne a x xs ys d.0.0 d.0.1 (sym q)) ∙ c.0,
  prev x (λ q. first-ne b x xs ys w.0 d.1.0 (sym q)) ∙ c.1,
  Chain-skip l l' x e b xs ys next prev at at' d.1 w.1 c.2,
)

-- Where the entry behind a part of a chain points to.
Chain-neighbours :
    (l : Links) (a e b : ℕ) (xs ys : List ℕ)
    → Chain l a (xs ++ (e ∷ ys)) b
    → (l.prev e ≡ last a xs) × (l.next e ≡ first ys b)
Chain-neighbours l a e b [] [] c = (c.1, c.2.0)
Chain-neighbours l a e b [] (y ∷ ys) c = (c.1, c.2.0)
Chain-neighbours l a e b (x ∷ xs) ys c = Chain-neighbours l x e b xs ys c.2

Without-skip : (a e : ℕ) (xs ys : List ℕ) → Without a (xs ++ (e ∷ ys)) → Without a (xs ++ ys)
Without-skip a e [] ys w = w.1
Without-skip a e (x ∷ xs) ys w = (w.0, Without-skip a e xs ys w.1)

Distinct-skip : (e : ℕ) (xs ys : List ℕ) → Distinct (xs ++ (e ∷ ys)) → Distinct (xs ++ ys)
Distinct-skip e [] ys d = d.1
Distinct-skip e (x ∷ xs) ys d = (Without-skip x e xs ys d.0, Distinct-skip e xs ys d.1)

-- `list_rm` of an entry of a list of different entries takes it out, and leaves the others in
-- order.
pub list_rm-IsRing :
    (l : Links) (head e : ℕ) (xs ys : List ℕ)
    → IsRing l head (xs ++ (e ∷ ys))
    → IsRing (list_rm l e) head (xs ++ ys)
unfolding list_rm list_join set_next set_prev
list_rm-IsRing l head e xs ys (c, d) =
    let (before, behind) = Chain-neighbours l head e head xs ys c in
    let w = Without-skip head e xs ys d.0 in
    let d' : Distinct (head ∷ (xs ++ ys)) = (w, Distinct-skip e xs ys d.1) in
    (
      Chain-skip l (list_rm l e) head e head xs ys (λ x ne. ground (arith, before, ne))
          (λ x ne. ground (arith, behind, ne)) (ground (arith, before, behind))
          (ground (arith, before, behind)) d' w c,
      d',
    )
