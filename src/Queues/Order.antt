-- ===== src/Queues/Order.antt =====
-- The order in which messages leave a queue of pkg/mq, and what pop_while cuts off.
use xiaoya_qwen.Prelude.{
  List, [], ◌∷◌, ◌++◌, append_assoc, append-nil, Bool, true, false, ◌≡◌, refl, sym, ap, ◌∙◌, take,
  drop, take-append-drop, All, Bool-cases, inl, inr,
}
use xiaoya_qwen.Queues.{
  push, consume_loop, consume, index_while, pop_while, MqStep, publishes, consumes, consumes_all,
  clears, MqSteps, rests, steps,
}

module _ {T : Type 0} where
  consume_loop-all : (given q : List T) → consume_loop given q ≡ (given ++ q, [])
  unfolding consume_loop
  consume_loop-all given [] = ap (λ r. (r, [])) (sym (append-nil given))
  consume_loop-all given (v ∷ q) =
      consume_loop-all (given ++ v ∷ []) q ∙ ap (λ r. (r, [])) (append_assoc given (v ∷ []) q)

  consume-all : (q : List T) → consume q ≡ (q, [])
  unfolding consume
  consume-all q = consume_loop-all [] q

  MqStep-order : (q ins outs r : List T) → MqStep q ins outs r → q ++ ins ≡ outs ++ r
  unfolding push
  MqStep-order q _ _ _ (publishes _ m) = refl
  MqStep-order q _ _ _ (consumes _) = rw (consume-all q) refl
  MqStep-order q _ _ _ (clears _) = refl
  MqStep-order q _ _ _ (consumes_all _) = refl

  -- In any sequence of operations, what was in the queue and what was published are, in this order, what
  -- the consumers were given or Clear dropped, and what is still in the queue.
  pub MqSteps-order : (q ins outs r : List T) → MqSteps q ins outs r → q ++ ins ≡ outs ++ r
  MqSteps-order q _ _ _ (rests _) = append-nil q
  MqSteps-order q _ _ s (steps _ r _ ins outs ins' outs' h k) =
      sym (append_assoc q ins ins')
      ∙ ap (λ x. x ++ ins') (MqSteps-order q ins outs r h)
      ∙ append_assoc outs r ins'
      ∙ ap (λ x. outs ++ x) (MqStep-order r ins' outs' s k)
      ∙ sym (append_assoc outs outs' s)

  -- The next element does not pass the test.
  abbrev pub Stops : (T → Bool) → List T → Type 0
  Stops f [] = Unit
  Stops f (v ∷ q) = f v ≡ false

  taken : (f : T → Bool) (q : List T) → All (λ v. f v ≡ true) (take (index_while f q) q)
  unfolding index_while
  taken f [] = tt
  taken f (v ∷ q) = elim (Bool-cases (f v)) [ inl e ↦ rw e (e, taken f q) | inr e ↦ rw e tt ]

  left : (f : T → Bool) (q : List T) → Stops f (drop (index_while f q) q)
  unfolding index_while
  left f [] = tt
  left f (v ∷ q) = elim (Bool-cases (f v)) [ inl e ↦ rw e (left f q) | inr e ↦ rw e e ]

  -- PopWhile cuts the queue in two: the first part passes the test, and what is left starts with an
  -- element that does not pass it, or is empty.
  pub pop_while-cut :
      (q : List T) (f : T → Bool)
      → ((pop_while q f).0 ++ (pop_while q f).1 ≡ q)
        × All (λ v. f v ≡ true) (pop_while q f).0
        × Stops f (pop_while q f).1
  unfolding pop_while
  pop_while-cut q f = (take-append-drop (index_while f q) q, taken f q, left f q)
