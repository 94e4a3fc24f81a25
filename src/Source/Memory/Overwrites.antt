-- ===== src/Source/Memory/Overwrites.antt =====
-- Bytes that are overwritten, in a list and in lists that are joined.
use allvm_tools.Source.Memory.Growth.{overwrite}
use allvm_tools.Base.{
  ℕ, ◌+◌, drop, ◌++◌, ◌≡◌, ◌-◌, ◌≤◌, length, List, take, [], length-append, ap, eq-nil_of_length,
  append-nil, ◌∙◌, arith, append_assoc, drop-drop, min, length-take, take-append-drop, sym,
  length-drop, take_add, take-append_ge, take-append_le, drop-append_le, drop-append_ge, drop-take,
  take-take,
}

module _ {ℓ} {A : Type ℓ} where
  -- A write that goes to the end of the first list, and one that does not.
  pub overwrite-append_ge :
      (f g vs : List A) (start : ℕ)
      → start ≤ length f
      → length f ≤ start + length vs
      → let left = length f - start in
        overwrite f start (take left vs) ++ overwrite g 0 (drop left vs)
        ≡ overwrite (f ++ g) start vs
  overwrite-append_ge f g vs start le over =
      let m = length f - start in
      let v₁ = take m vs in
      let v₂ = drop m vs in
      let a = take start f in
      let k = start + length vs in
      let count : length v₁ ≡ m = omega (arith, length-take m vs) in
      let no_rest : drop (start + length v₁) f ≡ [] =
        eq-nil_of_length (drop (start + length v₁) f)
          (omega (arith, length-drop (start + length v₁) f)) in
      let e : 0 + length v₂ ≡ k - length f = omega (arith, length-drop m vs) in
      ap (λ l. (a ++ v₁) ++ l ++ (v₂ ++ drop (0 + length v₂) g)) no_rest
      ∙ ap (λ l. l ++ (v₂ ++ drop (0 + length v₂) g)) (append-nil (a ++ v₁))
      ∙ sym (append_assoc (a ++ v₁) v₂ (drop (0 + length v₂) g))
      ∙ ap (λ l. l ++ drop (0 + length v₂) g)
          (append_assoc a v₁ v₂ ∙ ap (λ l. a ++ l) (take-append-drop m vs))
      ∙ ap (λ l. l ++ vs ++ drop (0 + length v₂) g) (sym (take-append_le f g start le))
      ∙ ap (λ l. take start (f ++ g) ++ vs ++ l)
          (ap (λ j. drop j g) e ∙ sym (drop-append_ge f g k over))

  pub overwrite-append_le :
      (f g vs : List A) (start : ℕ)
      → start + length vs ≤ length f
      → overwrite f start vs ++ g ≡ overwrite (f ++ g) start vs
  overwrite-append_le f g vs start inside =
      let k = start + length vs in
      append_assoc (take start f ++ vs) (drop k f) g
      ∙ ap (λ l. take start f ++ vs ++ l) (sym (drop-append_le f g k inside))
      ∙ ap (λ l. l ++ vs ++ drop k (f ++ g)) (sym (take-append_le f g start (omega arith)))

  pub length-overwrite :
      (xs vs : List A) (start : ℕ)
      → start + length vs ≤ length xs
      → length (overwrite xs start vs) ≡ length xs
  length-overwrite xs vs start inside =
      let k = start + length vs in
      omega (
        arith,
        length-append (take start xs ++ vs) (drop k xs),
        length-append (take start xs) vs,
        length-take start xs,
        length-drop k xs,
      )

  pub overwrite-drop :
      (xs vs : List A) (p q : ℕ) → take p xs ++ overwrite (drop p xs) q vs ≡ overwrite xs (p + q) vs
  overwrite-drop xs vs p q =
      let ys = drop p xs in
      let k = q + length vs in
      let e : p + k ≡ p + q + length vs = omega arith in
      sym (append_assoc (take p xs) (take q ys ++ vs) (drop k ys))
      ∙ ap (λ l. l ++ drop k ys)
          (sym (append_assoc (take p xs) (take q ys) vs)
            ∙ ap (λ l. l ++ vs) (sym (take_add p q xs)))
      ∙ ap (λ l. take (p + q) xs ++ vs ++ l) (drop-drop k p xs ∙ ap (λ j. drop j xs) e)

  -- A longer list is cut after its written part at least.
  pub take-overwrite :
      (xs vs : List A) (start size size' : ℕ)
      → start ≤ size
      → size ≤ length xs
      → start + length vs ≤ size'
      → size' - (start + length vs) ≡ size - (start + length vs)
      → take size' (overwrite xs start vs) ≡ overwrite (take size xs) start vs
  take-overwrite xs vs start size size' le fits covers same =
      let k = start + length vs in
      let a = take start xs in
      let count : length (a ++ vs) ≡ k = omega (arith, length-append a vs, length-take start xs) in
      let e : size' - length (a ++ vs) ≡ size - k = ap (λ j. size' - j) count ∙ same in
      let e' : min start size ≡ start = omega arith in
      take-append_ge (a ++ vs) (drop k xs) size' (omega (arith, count))
      ∙ ap (λ j. a ++ vs ++ take j (drop k xs)) e
      ∙ ap (λ l. a ++ vs ++ l) (sym (drop-take k size xs))
      ∙ ap (λ l. l ++ vs ++ drop k (take size xs))
          (sym (take-take start size xs ∙ ap (λ j. take j xs) e'))
