-- ===== src/Bustd/LinkedList/Insert.antt =====
-- `append_back` and `append_front` add one value to the row.
use bunos.Prelude.{
  ℕ, ◌+◌, ◌^◌, ◌<◌, ◌≡◌, refl, sym, ap, ◌∙◌, true, false, Option, some, none, List, [], ◌∷◌, ◌++◌,
  Result, ok, arith, ◌==◌, length, length-append, add32,
}
use mathlib.Core.Path.{subst}
use bunos.Bustd.LinkedList.{
  Node, Store, LinkedList, put, new_node, set_next, set_prev, append_back, append_front,
}
use bunos.Bustd.LinkedList.Chain.{
  first_or, last_or, Below-NotIn, Below-suc, Below-append, NotIn-left, Distinct-snoc,
  Distinct-middle, Seg-split, update_self, update_ne, Seg-update, Seg-append, Seg-set_next,
  Seg-set_prev, IsList, snoc, last_or-snoc,
}

module _ {A : Type 0} where
  pub set_next_lem :
      (s : Store A) (p : ℕ) (n : Node A) (q : Option ℕ)
      → s.cell p ≡ some n
      → set_next s (some p) q ≡ ok (put s p (some (record n { next = q })))
  unfolding set_next
  set_next_lem s p n q e = rw e

  pub set_prev_lem :
      (s : Store A) (p : ℕ) (n : Node A) (q : Option ℕ)
      → s.cell p ≡ some n
      → set_prev s (some p) q ≡ ok (put s p (some (record n { prev = q })))
  unfolding set_prev
  set_prev_lem s p n q e = rw e

  length-snoc : (xs : List (ℕ × A)) (x : ℕ × A) → length (xs ++ x ∷ []) ≡ length xs + 1
  length-snoc xs x = length-append xs (x ∷ [])

  first_or-snoc :
      (xs : List (ℕ × A)) (t : ℕ) (w : A) (ys : List (ℕ × A))
      → first_or ((xs ++ (t, w) ∷ []) ++ ys) none ≡ first_or (xs ++ (t, w) ∷ []) none
  first_or-snoc [] t w ys = refl
  first_or-snoc (x ∷ xs) t w ys = refl

  -- A run that returns a list object for the row.
  pub record Gives (run : Result (Store A × LinkedList)) (ps : List (ℕ × A)) : Type 0 where
    pub store : Store A
    pub list : LinkedList
    pub returned : run ≡ ok (store, list)
    pub valid : IsList store list ps

  append_back_empty :
      (s : Store A) (l : LinkedList) (v : A)
      → IsList s l []
      → Gives (append_back s l v) ((s.fresh, v) ∷ [])
  unfolding append_back
  append_back_empty s l v i =
      let e : l.size ≡ 0 = i.size_eq in
      let test : (l.size == 0) ≡ true = ground arith in
      record {
        store = (new_node s v).1;
        list = record { head = some s.fresh; tail = some s.fresh; size = add32 l.size 1 };
        returned = rw test;
        valid = record {
          head_eq = refl;
          tail_eq = refl;
          size_eq = omega arith;
          linked = (update_self s.cell s.fresh _, tt);
          distinct = (tt, tt);
          below = (omega arith, tt);
        };
      }

  append_back_snoc :
      (s : Store A) (l : LinkedList) (v : A) (xs : List (ℕ × A)) (t : ℕ) (w : A)
      → length xs + 2 < 2 ^ 32
      → IsList s l (xs ++ (t, w) ∷ [])
      → Gives (append_back s l v) ((xs ++ (t, w) ∷ []) ++ (s.fresh, v) ∷ [])
  unfolding append_back
  append_back_snoc s l v xs t w small i =
      let ts = xs ++ (t, w) ∷ [] in
      let f = s.fresh in
      let n = length-snoc xs (t, w) in
      let test : (l.size == 0) ≡ false = ground (arith, i.size_eq, n) in
      let tail : l.tail ≡ some t = i.tail_eq ∙ last_or-snoc xs t w none in
      let s0 = (new_node s v).1 in
      let absent = Below-NotIn f ts i.below in
      let (free, (t_ne_f, _)) = NotIn-left f xs ((t, w) ∷ []) absent in
      let t_free = (Distinct-middle xs t w [] i.distinct).1 in
      let seg0 = Seg-update s.cell none ts none f _ absent i.linked in
      let at_t = (Seg-split s0.cell none xs ((t, w) ∷ []) none seg0).1.0 in
      let s1 = put s0 t (some (record { prev = last_or xs none; next = some f; val = w })) in
      let seg1 = Seg-set_next s0.cell none xs t w none (some f) t_free seg0 in
      let at_f : s1.cell f ≡ some (record { prev = none; next = none; val = v }) =
        update_ne s0.cell t f _ (λ e. t_ne_f (sym e)) ∙ update_self s.cell f _ in
      let s2 = put s1 f (some (record { prev = some t; next = none; val = v })) in
      let seg2 = Seg-update s1.cell none ts (some f) f _ absent seg1 in
      record {
        store = s2;
        list = record { head = l.head; tail = some f; size = add32 l.size 1 };
        returned =
            rw (test, tail, set_next_lem s0 t _ (some f) at_t, set_prev_lem s1 f _ (some t) at_f);
        valid = record {
          head_eq = i.head_eq ∙ sym (first_or-snoc xs t w ((f, v) ∷ []));
          tail_eq = sym (last_or-snoc ts f v none);
          size_eq = omega (arith, i.size_eq, n, length-snoc ts (f, v));
          linked = Seg-append s2.cell none ts ((f, v) ∷ []) none seg2 (
            update_self s1.cell f _
                ∙ ap (λ b. some (record { prev = b; next = none; val = v }))
                    (sym (last_or-snoc xs t w none)),
            tt,
          );
          distinct = Distinct-snoc ts f v i.distinct absent;
          below = Below-append (f + 1) ts ((f, v) ∷ []) (Below-suc f ts i.below) (omega arith, tt);
        };
      }

  -- On a list object for a row, `append_back` puts a new node with the value behind the row's last
  -- one and returns a list object for the longer row, as long as its length fits `usize`.
  pub append_back_lem :
      (s : Store A) (l : LinkedList) (v : A) (ps : List (ℕ × A))
      → length ps + 1 < 2 ^ 32
      → IsList s l ps
      → Gives (append_back s l v) (ps ++ (s.fresh, v) ∷ [])
  append_back_lem s l v [] small i = append_back_empty s l v i
  append_back_lem s l v ((p, w) ∷ ps) small i =
      let r = snoc p w ps in
      let n = length-snoc r.others (r.last, r.value) in
      subst (λ qs. Gives (append_back s l v) (qs ++ (s.fresh, v) ∷ [])) (sym r.split_eq)
        (append_back_snoc s l v r.others r.last r.value (omega (arith, n, ap length r.split_eq))
          (subst (λ qs. IsList s l qs) r.split_eq i))

  append_front_empty :
      (s : Store A) (l : LinkedList) (v : A)
      → IsList s l []
      → Gives (append_front s l v) ((s.fresh, v) ∷ [])
  unfolding append_front
  append_front_empty s l v i =
      let e : l.size ≡ 0 = i.size_eq in
      let test : (l.size == 0) ≡ true = ground arith in
      record {
        store = (new_node s v).1;
        list = record { head = some s.fresh; tail = some s.fresh; size = add32 l.size 1 };
        returned = rw test;
        valid = record {
          head_eq = refl;
          tail_eq = refl;
          size_eq = omega arith;
          linked = (update_self s.cell s.fresh _, tt);
          distinct = (tt, tt);
          below = (omega arith, tt);
        };
      }

  -- The same in front of the row's first node.
  pub append_front_lem :
      (s : Store A) (l : LinkedList) (v : A) (ps : List (ℕ × A))
      → length ps + 1 < 2 ^ 32
      → IsList s l ps
      → Gives (append_front s l v) ((s.fresh, v) ∷ ps)
  unfolding append_front
  append_front_lem s l v [] small i = append_front_empty s l v i
  append_front_lem s l v ((t, w) ∷ ys) small i =
      let ts = (t, w) ∷ ys in
      let f = s.fresh in
      let test : (l.size == 0) ≡ false = ground (arith, i.size_eq) in
      let head : l.head ≡ some t = i.head_eq in
      let s0 = (new_node s v).1 in
      let absent = Below-NotIn f ts i.below in
      let t_ne_f = absent.0 in
      let seg0 = Seg-update s.cell none ts none f _ absent i.linked in
      let s1 = put s0 t (some (record { prev = some f; next = first_or ys none; val = w })) in
      let seg1 = Seg-set_prev s0.cell none (some f) t w ys none i.distinct.0 seg0 in
      let at_f : s1.cell f ≡ some (record { prev = none; next = none; val = v }) =
        update_ne s0.cell t f _ (λ e. t_ne_f (sym e)) ∙ update_self s.cell f _ in
      let s2 = put s1 f (some (record { prev = none; next = some t; val = v })) in
      let seg2 = Seg-update s1.cell (some f) ts none f _ absent seg1 in
      record {
        store = s2;
        list = record { head = some f; tail = l.tail; size = add32 l.size 1 };
        returned =
            rw (test, head, set_prev_lem s0 t _ (some f) seg0.0, set_next_lem s1 f _ (some t) at_f);
        valid = record {
          head_eq = refl;
          tail_eq = i.tail_eq;
          size_eq = omega (arith, i.size_eq);
          linked = (update_self s1.cell f _, seg2);
          distinct = (absent, i.distinct);
          below = (omega arith, Below-suc f ts i.below);
        };
      }
