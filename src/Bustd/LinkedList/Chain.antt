-- ===== src/Bustd/LinkedList/Chain.antt =====
-- A list of nodes as a piece of the store: a row of addresses with their values, linked both ways.
use bunos.Prelude.{
  ℕ, ◌+◌, ◌<◌, ◌≡◌, ◌≢◌, refl, sym, ap, ◌∙◌, true, false, Option, some, none, List, [], ◌∷◌, ◌++◌,
  arith, ◌==◌, if◌then◌else◌, length,
}
use bunos.Bustd.LinkedList.{Node, Store, LinkedList}

module _ {A : Type 0} where
  -- The first and the last address, or another pointer where there is none.
  abbrev pub first_or : List (ℕ × A) → Option ℕ → Option ℕ
  first_or [] other = other
  first_or ((p, v) ∷ ps) other = some p

  abbrev pub last_or : List (ℕ × A) → Option ℕ → Option ℕ
  last_or [] other = other
  last_or ((p, v) ∷ ps) other = last_or ps (some p)

  -- The nodes `ps`, behind `back` and before `stop`.
  abbrev pub Seg : (ℕ → Option (Node A)) → Option ℕ → List (ℕ × A) → Option ℕ → Type 0
  Seg cell back [] stop = Unit {0}
  Seg cell back ((p, v) ∷ ps) stop =
      (cell p ≡ some (record { prev = back; next = first_or ps stop; val = v }))
      × Seg cell (some p) ps stop

  abbrev pub NotIn : ℕ → List (ℕ × A) → Type 0
  NotIn a [] = Unit {0}
  NotIn a ((p, v) ∷ ps) = (p ≢ a) × NotIn a ps

  abbrev pub Distinct : List (ℕ × A) → Type 0
  Distinct [] = Unit {0}
  Distinct ((p, v) ∷ ps) = NotIn p ps × Distinct ps

  abbrev pub Below : ℕ → List (ℕ × A) → Type 0
  Below n [] = Unit {0}
  Below n ((p, v) ∷ ps) = (p < n) × Below n ps

  pub Below-NotIn : (n : ℕ) (ps : List (ℕ × A)) → Below n ps → NotIn n ps
  Below-NotIn n [] h = tt
  Below-NotIn n ((p, v) ∷ ps) (h, hs) = ((λ e. omega arith), Below-NotIn n ps hs)

  pub Below-suc : (n : ℕ) (ps : List (ℕ × A)) → Below n ps → Below (n + 1) ps
  Below-suc n [] h = tt
  Below-suc n ((p, v) ∷ ps) (h, hs) = (omega arith, Below-suc n ps hs)

  pub Below-append : (n : ℕ) (xs ys : List (ℕ × A)) → Below n xs → Below n ys → Below n (xs ++ ys)
  Below-append n [] ys hx hy = hy
  Below-append n ((p, v) ∷ xs) ys (h, hx) hy = (h, Below-append n xs ys hx hy)

  pub Below-left : (n : ℕ) (xs ys : List (ℕ × A)) → Below n (xs ++ ys) → Below n xs × Below n ys
  Below-left n [] ys h = (tt, h)
  Below-left n ((p, v) ∷ xs) ys (h, hs) = let (a, b) = Below-left n xs ys hs in ((h, a), b)

  pub NotIn-append : (a : ℕ) (xs ys : List (ℕ × A)) → NotIn a xs → NotIn a ys → NotIn a (xs ++ ys)
  NotIn-append a [] ys hx hy = hy
  NotIn-append a ((p, v) ∷ xs) ys (h, hx) hy = (h, NotIn-append a xs ys hx hy)

  pub NotIn-left : (a : ℕ) (xs ys : List (ℕ × A)) → NotIn a (xs ++ ys) → NotIn a xs × NotIn a ys
  NotIn-left a [] ys h = (tt, h)
  NotIn-left a ((p, v) ∷ xs) ys (h, hs) = let (x, y) = NotIn-left a xs ys hs in ((h, x), y)

  pub Distinct-snoc :
      (xs : List (ℕ × A)) (p : ℕ) (v : A) → Distinct xs → NotIn p xs → Distinct (xs ++ (p, v) ∷ [])
  Distinct-snoc [] p v d h = (tt, tt)
  Distinct-snoc ((q, w) ∷ xs) p v (n, d) (h, hs) =
      (NotIn-append q xs ((p, v) ∷ []) n ((λ e. h (sym e)), tt), Distinct-snoc xs p v d hs)

  -- A node taken out of the middle.
  pub Distinct-middle :
      (xs : List (ℕ × A)) (p : ℕ) (v : A) (ys : List (ℕ × A))
      → Distinct (xs ++ (p, v) ∷ ys)
      → Distinct (xs ++ ys) × NotIn p xs × NotIn p ys
  Distinct-middle [] p v ys (n, d) = (d, tt, n)
  Distinct-middle ((q, w) ∷ xs) p v ys (n, d) =
      let (d', nx, ny) = Distinct-middle xs p v ys d in
      let (a, (b, c)) = NotIn-left q xs ((p, v) ∷ ys) n in
      ((NotIn-append q xs ys a c, d'), ((λ e. b (sym e)), nx), ny)

  abbrev pub update : (ℕ → Option (Node A)) → ℕ → Option (Node A) → ℕ → Option (Node A)
  update cell p c q = if q == p then c else cell q

  pub update_self :
      (cell : ℕ → Option (Node A)) (p : ℕ) (c : Option (Node A)) → update cell p c p ≡ c
  update_self cell p c = let e : (p == p) ≡ true = ground arith in rw e

  pub update_ne :
      (cell : ℕ → Option (Node A)) (p q : ℕ) (c : Option (Node A))
      → q ≢ p
      → update cell p c q ≡ cell q
  update_ne cell p q c ne = let e : (q == p) ≡ false = ground arith in rw e

  -- A write elsewhere leaves a segment alone.
  pub Seg-update :
      (cell : ℕ → Option (Node A)) (back : Option ℕ) (ps : List (ℕ × A)) (stop : Option ℕ) (a : ℕ)
      (c : Option (Node A))
      → NotIn a ps
      → Seg cell back ps stop
      → Seg (update cell a c) back ps stop
  Seg-update cell back [] stop a c n h = tt
  Seg-update cell back ((p, v) ∷ ps) stop a c (ne, n) (h, hs) =
      (update_ne cell a p c ne ∙ h, Seg-update cell (some p) ps stop a c n hs)

  pub Seg-append :
      (cell : ℕ → Option (Node A)) (back : Option ℕ) (xs ys : List (ℕ × A)) (stop : Option ℕ)
      → Seg cell back xs (first_or ys stop)
      → Seg cell (last_or xs back) ys stop
      → Seg cell back (xs ++ ys) stop
  Seg-append cell back [] ys stop hx hy = hy
  Seg-append cell back ((p, v) ∷ []) ys stop (h, hx) hy = (h, hy)
  Seg-append cell back ((p, v) ∷ (q, w) ∷ xs) ys stop (h, hx) hy =
      (h, Seg-append cell (some p) ((q, w) ∷ xs) ys stop hx hy)

  pub Seg-split :
      (cell : ℕ → Option (Node A)) (back : Option ℕ) (xs ys : List (ℕ × A)) (stop : Option ℕ)
      → Seg cell back (xs ++ ys) stop
      → Seg cell back xs (first_or ys stop) × Seg cell (last_or xs back) ys stop
  Seg-split cell back [] ys stop h = (tt, h)
  Seg-split cell back ((p, v) ∷ []) ys stop (h, hs) = ((h, tt), hs)
  Seg-split cell back ((p, v) ∷ (q, w) ∷ xs) ys stop (h, hs) =
      let (a, b) = Seg-split cell (some p) ((q, w) ∷ xs) ys stop hs in ((h, a), b)

  -- The last node's `next` and the first node's `prev` written anew.
  pub Seg-set_next :
      (cell : ℕ → Option (Node A)) (back : Option ℕ) (xs : List (ℕ × A)) (t : ℕ) (w : A)
      (stop stop' : Option ℕ)
      → NotIn t xs
      → Seg cell back (xs ++ (t, w) ∷ []) stop
      → Seg
          (update cell t (some (record { prev = last_or xs back; next = stop'; val = w })))
          back
          (xs ++ (t, w) ∷ [])
          stop'
  Seg-set_next cell back xs t w stop stop' n h =
      let (a, _) = Seg-split cell back xs ((t, w) ∷ []) stop h in
      let c = some (record { prev = last_or xs back; next = stop'; val = w }) in
      Seg-append (update cell t c) back xs ((t, w) ∷ []) stop'
        (Seg-update cell back xs (some t) t c n a) (update_self cell t c, tt)

  pub Seg-set_prev :
      (cell : ℕ → Option (Node A)) (back back' : Option ℕ) (t : ℕ) (w : A) (ys : List (ℕ × A))
      (stop : Option ℕ)
      → NotIn t ys
      → Seg cell back ((t, w) ∷ ys) stop
      → Seg
          (update cell t (some (record { prev = back'; next = first_or ys stop; val = w })))
          back'
          ((t, w) ∷ ys)
          stop
  Seg-set_prev cell back back' t w ys stop n (h, hs) =
      let c = some (record { prev = back'; next = first_or ys stop; val = w }) in
      (update_self cell t c, Seg-update cell (some t) ys stop t c n hs)

  -- The list object `l` in the store `s` is the row `ps`.
  pub record IsList (s : Store A) (l : LinkedList) (ps : List (ℕ × A)) : Type 0 where
    pub head_eq : l.head ≡ first_or ps none
    pub tail_eq : l.tail ≡ last_or ps none
    pub size_eq : l.size ≡ length ps
    pub linked : Seg s.cell none ps none
    pub distinct : Distinct ps
    pub below : Below s.fresh ps

  -- A row that is not empty has a last node.
  pub record Snoc (ps : List (ℕ × A)) : Type 0 where
    pub others : List (ℕ × A)
    pub last : ℕ
    pub value : A
    pub split_eq : ps ≡ others ++ (last, value) ∷ []

  pub snoc : (p : ℕ) (v : A) (ps : List (ℕ × A)) → Snoc ((p, v) ∷ ps)
  snoc p v [] = record { others = []; last = p; value = v; split_eq = refl }
  snoc p v ((q, w) ∷ ps) =
      let r = snoc q w ps in
      record {
        others = (p, v) ∷ r.others;
        last = r.last;
        value = r.value;
        split_eq = ap (λ t. (p, v) ∷ t) r.split_eq;
      }

  pub last_or-snoc :
      (xs : List (ℕ × A)) (t : ℕ) (w : A) (other : Option ℕ)
      → last_or (xs ++ (t, w) ∷ []) other ≡ some t
  last_or-snoc [] t w other = refl
  last_or-snoc ((q, v) ∷ xs) t w other = last_or-snoc xs t w (some q)
