-- ===== src/SocialListener/Emitter/Sends.antt =====
-- What `emit` posts, and when it reports success.
use matp.Base.{
  ℕ, Bool, true, false, ◌<◌, ◌≡◌, refl, Option, none, some, List, [], ◌∷◌, ◌++◌, map, All, Begins,
  arith, Bool-cases, inl, inr,
}
use matp.Base.Text.{Text}
use matp.Base.Num.{Num, nought}
use matp.SocialListener.Decision.{Signal}
use matp.SocialListener.Emitter.{
  Step, steps, Payload, Account, Response, exception, status, garbled, Outcome, done, payload, send,
  size_of, emit_some, emit,
}

abbrev pub is_done : Outcome → Bool
is_done (done l) = true
is_done _ = false

-- The answer is a status below 300, with a body that can be read.
abbrev pub Accepts : Response → Type 0
Accepts exception = ⊥
Accepts (status n) = n < 300
Accepts (garbled n) = ⊥

-- All but the last payload were accepted.
abbrev pub AllButLast : {F : Type 0} → (Payload F → Response) → List (Payload F) → Type 0
AllButLast answer [] = Unit
AllButLast answer (p ∷ []) = Unit
AllButLast answer (p ∷ q ∷ rest) = Accepts (answer p) × AllButLast answer (q ∷ rest)

module _ {F : Type 0} (answer : Payload F → Response) (body : Step → Payload F) where
  send-done :
      (todo sent : List Step)
      → is_done (send answer body todo sent).0 ≡ true
      → ((send answer body todo sent).1 ≡ map body todo)
        × All (λ p. Accepts (answer p)) (map body todo)
  unfolding send
  send-done [] sent e = ground arith
  send-done (s ∷ rest) sent e = ground (arith, send-done rest (sent ++ s ∷ []))

  send-AllButLast : (todo sent : List Step) → AllButLast answer (send answer body todo sent).1
  unfolding send
  send-AllButLast [] sent = tt
  send-AllButLast (s ∷ []) sent = ground arith
  send-AllButLast (s ∷ t ∷ rest) sent = ground (arith, send-AllButLast (t ∷ rest) (sent ++ s ∷ []))

  send-Begins : (todo sent : List Step) → Begins (send answer body todo sent).1 (map body todo)
  unfolding send
  send-Begins [] sent = tt
  send-Begins (s ∷ rest) sent = ground (arith, send-Begins rest (sent ++ s ∷ []))

module _ {F : Type 0} ⦃num : Num F⦄ (answer : Payload F → Response) (acc : Account F) (now : ℕ)
    (asset : Text) where
  abbrev body : F → Step → Payload F
  body size step = payload acc step asset size now

  emit_some-posts :
      (todo : List Step) (sized : Outcome × Option F) (p : Payload F) (rest : List (Payload F))
      → (emit_some answer acc asset now todo sized).1 ≡ p ∷ rest
      → (size : F) × (sized.1 ≡ some size)
        × (num.le size nought ≡ false)
        × Begins (p ∷ rest) (map (body size) todo)
        × AllButLast answer (p ∷ rest)
  emit_some-posts [] sized p rest e = absurd (ground arith)
  emit_some-posts (s ∷ todo) (r, none) p rest e = absurd (ground arith)
  emit_some-posts (s ∷ todo) (r, some size) p rest e = elim (Bool-cases (num.le size nought)) [
    | inl small ↦ absurd (ground arith)
    | inr big ↦ (
      size,
      refl,
      big,
      rw (rw big at e) at (send-Begins answer (body size) (s ∷ todo) []),
      rw (rw big at e) at (send-AllButLast answer (body size) (s ∷ todo) []),
    )
  ]

  emit_some-done :
      (todo : List Step) (sized : Outcome × Option F)
      → (sized.1 ≡ none → is_done sized.0 ≡ false)
      → is_done (emit_some answer acc asset now todo sized).0 ≡ true
      → (size : F) × (sized.1 ≡ some size)
        × ((emit_some answer acc asset now todo sized).1 ≡ map (body size) todo)
        × All (λ p. Accepts (answer p)) (map (body size) todo)
  emit_some-done [] sized h e = absurd (ground arith)
  emit_some-done (s ∷ todo) (r, none) h e = absurd (ground (arith, h refl))
  emit_some-done (s ∷ todo) (r, some size) h e = elim (Bool-cases (num.le size nought)) [
    | inl small ↦ absurd (ground arith)
    | inr big ↦ (
      size,
      refl,
      rw big (send-done answer (body size) (s ∷ todo) [] (rw big at e)).0,
      (send-done answer (body size) (s ∷ todo) [] (rw big at e)).1,
    )
  ]

module _ {F : Type 0} ⦃num : Num F⦄ (answer : Payload F → Response) (acc : Account F) (now : ℕ)
    (signal : Signal) (asset : Text) (mark close_size open_size : Option F) where
  -- What `emit` has posted, at the size `size`.
  pub record IsOrdered (size : F) (posted : List (Payload F)) : Type 0 where
    pub sized : (size_of acc signal mark close_size open_size).1 ≡ some size
    pub positive : num.le size nought ≡ false
    pub in_order : Begins posted (map (λ step. payload acc step asset size now) (steps signal))
    pub accepted : AllButLast answer posted

  -- Whatever the answers, if `emit` posts anything, it posts, at one size above zero that is the
  -- one asked for, the steps of the signal in their order from the first on, and nothing after one
  -- that is not accepted.
  pub emit-IsOrdered :
      (p : Payload F) (rest : List (Payload F))
      → (emit answer acc now signal asset mark close_size open_size).1 ≡ p ∷ rest
      → (size : F) × IsOrdered size (p ∷ rest)
  unfolding emit
  emit-IsOrdered p rest e =
      let (size, sized, positive, in_order, accepted) =
        emit_some-posts answer acc now asset (steps signal)
          (size_of acc signal mark close_size open_size) p rest e in
      (
        size,
        record { sized = sized; positive = positive; in_order = in_order; accepted = accepted },
      )

  size_of-refuses :
      (size_of acc signal mark close_size open_size).1 ≡ none
      → is_done (size_of acc signal mark close_size open_size).0 ≡ false
  unfolding size_of
  size_of-refuses e = ground arith

  -- Where `emit` reports success it has posted every step of the signal, at the size asked for,
  -- and every one was accepted.
  pub emit-done :
      is_done (emit answer acc now signal asset mark close_size open_size).0 ≡ true
      → (size : F) × ((size_of acc signal mark close_size open_size).1 ≡ some size)
        × ((emit answer acc now signal asset mark close_size open_size).1
            ≡ map (λ step. payload acc step asset size now) (steps signal))
        × All
            (λ p. Accepts (answer p))
            (map (λ step. payload acc step asset size now) (steps signal))
  unfolding emit
  emit-done e =
      emit_some-done answer acc now asset (steps signal)
        (size_of acc signal mark close_size open_size) size_of-refuses e
