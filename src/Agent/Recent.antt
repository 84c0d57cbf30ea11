-- ===== src/Agent/Recent.antt =====
-- The end of a history that addMessage of pkg/agent/conversation.go keeps.
use ai_inference_managed_by.Base.{
  ℕ, zero, suc, ◌-◌, ◌≤◌, ◌<◌, ◌≡◌, refl, sym, ap, ◌∙◌, List, [], ◌∷◌, ◌++◌, arith, length,
  length-append, drop, ltb, if◌then◌else◌, inl, inr, Bool-cases,
}
use ai_inference_managed_by.Agent.Store.{
  Message, Conversation, add_message, max_conversation_messages,
}

-- The last 100 messages.
abbrev pub recent : List Message → List Message
recent h = drop (length h - max_conversation_messages) h

module _ {A : Type 0} where
  drop-append : (n : ℕ) (xs ys : List A) → n ≤ length xs → drop n (xs ++ ys) ≡ drop n xs ++ ys
  drop-append zero xs ys h = refl
  drop-append (suc n) [] ys h = absurd (omega (arith, h))
  drop-append (suc n) (x ∷ xs) ys h = drop-append n xs ys (omega (arith, h))

  length-drop : (n : ℕ) (xs : List A) → length (drop n xs) ≡ length xs - n
  length-drop zero xs = omega arith
  length-drop (suc n) [] = omega arith
  length-drop (suc n) (x ∷ xs) = omega (arith, length-drop n xs)

  drop-drop : (n : ℕ) (xs : List A) → drop 1 (drop n xs) ≡ drop (suc n) xs
  drop-drop zero xs = refl
  drop-drop (suc n) [] = refl
  drop-drop (suc n) (x ∷ xs) = drop-drop n xs

pub recent_all : (h : List Message) → length h ≤ max_conversation_messages → recent h ≡ h
recent_all h le =
    ap (λ k. drop k h)
      (let none_left : length h - max_conversation_messages ≡ 0 = omega (arith, le) in none_left)

recent_cut :
    (h : List Message) (m : Message)
    → max_conversation_messages < length h
    → recent (recent h ++ m ∷ []) ≡ recent (h ++ m ∷ [])
recent_cut h m lt =
    let k = length h - max_conversation_messages in
    let one_more : length (recent h ++ m ∷ []) - max_conversation_messages ≡ 1 =
      omega (arith, lt, length-append {0} (recent h) (m ∷ []), length-drop k h) in
    let next : length (h ++ m ∷ []) - max_conversation_messages ≡ suc k =
      omega (arith, lt, length-append {0} h (m ∷ [])) in
    ap (λ n. drop n (recent h ++ m ∷ [])) one_more
    ∙ ap (drop 1) (sym (drop-append k h (m ∷ []) (omega (arith, lt))))
    ∙ drop-drop k (h ++ m ∷ [])
    ∙ ap (λ n. drop n (h ++ m ∷ [])) (sym next)

-- Cutting after each message is cutting once at the end.
recent-snoc : (h : List Message) (m : Message) → recent (recent h ++ m ∷ []) ≡ recent (h ++ m ∷ [])
recent-snoc h m = elim (Bool-cases (ltb max_conversation_messages (length h))) [
  | inl more ↦ recent_cut h m (ground (arith, more))
  | inr few ↦ ap (λ xs. recent (xs ++ m ∷ [])) (recent_all h (ground (arith, few)))
]

pub cut_if_long :
    (xs : List Message)
    → (if ltb max_conversation_messages (length xs)
        then drop (length xs - max_conversation_messages) xs
        else xs)
      ≡ recent xs
cut_if_long xs = elim (Bool-cases (ltb max_conversation_messages (length xs))) [
  | inl more ↦ rw more refl
  | inr few ↦ rw few (sym (recent_all xs (ground (arith, few))))
]

pub add_message-recent :
    (now : ℕ) (m : Message) (conv : Conversation) (h : List Message)
    → conv.messages ≡ recent h
    → (add_message now m conv).messages ≡ recent (h ++ m ∷ [])
unfolding add_message
add_message-recent now m conv h e =
    cut_if_long (conv.messages ++ m ∷ []) ∙ ap (λ xs. recent (xs ++ m ∷ [])) e ∙ recent-snoc h m

pub length-recent : (h : List Message) → length (recent h) ≤ max_conversation_messages
length-recent h = omega (arith, length-drop (length h - max_conversation_messages) h)
