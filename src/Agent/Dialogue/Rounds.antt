-- ===== src/Agent/Dialogue/Rounds.antt =====
-- The loop of Chat (pkg/agent/agent.go) and its calls of tools, as a dialogue.
use ai_inference_managed_by.Base.Map.{lookup-insert_self}
use ai_inference_managed_by.Base.{
  true, String, ℕ, zero, suc, ◌≡◌, refl, subst, sym, ap, ◌∙◌, List, [], ◌∷◌, ◌++◌, append_assoc,
  append-nil, Option, none, some, arith, inl, inr, Bool-cases, ◌⊎◌,
}
use ai_inference_managed_by.Base.Result.{Result, ok, err, Result-cases}
use ai_inference_managed_by.Workflow.Types.{Fields}
use ai_inference_managed_by.Unit.Errors.{GoError, wrapped}
use ai_inference_managed_by.Agent.Store.{ToolCall, Message, said, add_message}
use ai_inference_managed_by.Agent.Recent.{recent, add_message-recent}
use ai_inference_managed_by.Agent.{
  Agent, Held, say, Llm, ToolExecutor, ChatResponse, Reply, answered, gave_up, run_tools, rounds,
  tool_definitions, execute_tool, tool_message,
}
use ai_inference_managed_by.Agent.Dialogue.{
  Answers, no_calls, answer, IsHeld, Appends, Detaches, Dialogue, spent, lost, last, turn,
  List-cases,
}

module _ (marshal : Fields → Result GoError String) {W : Type 0} (now : W → ℕ) where
  -- The state of a chat on a conversation with this id and these messages so far.
  pub record IsAt (tools : Option (ToolExecutor W)) (id : String) (history : List Message)
      (h : Held) : Type 0 where
    pub named : h.conv.id ≡ id
    pub messages : h.conv.messages ≡ recent history
    pub held : IsHeld h
    pub kept : (h.stored ≡ true) ⊎ Detaches tools

  IsAt-same :
      (tools : Option (ToolExecutor W)) (id : String) (history : List Message) (h : Held)
      → IsAt tools id history h
      → (own : List Message) × IsAt tools id (history ++ own) h
  IsAt-same tools id history h v =
      ([], subst (λ hs. IsAt tools id hs h) (sym (append-nil history)) v)

  module _ (tools : ToolExecutor W) (call : ToolCall) (h : Held) (w : W) where
    pub execute_tool_refused :
        (e : GoError)
        → marshal call.arguments ≡ err e
        → (execute_tool marshal now (some tools) call h w).1 ≡ h
    unfolding execute_tool
    execute_tool_refused e failed = ground (arith, failed)

    pub execute_tool_run :
        (arguments : String)
        → marshal call.arguments ≡ ok arguments
        → (execute_tool marshal now (some tools) call h w).1 ≡ (tools.run call.name arguments h w).1
    unfolding execute_tool
    execute_tool_run arguments good = ground (arith, good)

  execute_tool-IsAt :
      (tools : Option (ToolExecutor W)) (id : String) (call : ToolCall) (history : List Message)
      (h : Held) (w : W)
      → Appends tools
      → IsAt tools id history h
      → (own : List Message) × IsAt tools id
          (history ++ own)
          (execute_tool marshal now tools call h w).1
  unfolding execute_tool
  execute_tool-IsAt none id call history h w keeps v = IsAt-same none id history h v
  execute_tool-IsAt (some tools) id call history h w keeps v =
      elim (Result-cases (marshal call.arguments)) [
        | inr (e, failed) ↦
            subst (λ t. (own : List Message) × IsAt (some tools) id (history ++ own) t)
              (sym (execute_tool_refused tools call h w e failed))
              (IsAt-same (some tools) id history h v)
        | inl (arguments, good) ↦
            let (named, held, (own, messages)) =
              keeps call.name arguments h w history v.messages v.held in
            let r = tools.run call.name arguments h w in
            let kept : (r.1.stored ≡ true) ⊎ Detaches (some tools) = elim v.kept [
              | inr d ↦ inr d
              | inl stored ↦ elim (Bool-cases r.1.stored) [
                | inl still ↦ inl still
                | inr gone ↦ inr (call.name, arguments, h, w, stored, gone)
              ]
            ] in
            subst (λ t. (own : List Message) × IsAt (some tools) id (history ++ own) t)
              (sym (execute_tool_run tools call h w arguments good))
              (
                own,
                record { named = named ∙ v.named; messages = messages; held = held; kept = kept },
              )
      ]

  module _ (tools : Option (ToolExecutor W)) (id : String) where
    pub say-IsAt :
        (time : ℕ) (m : Message) (history : List Message) (h : Held)
        → IsAt tools id history h
        → IsAt tools id (history ++ m ∷ []) (say time m h)
    unfolding say add_message
    say-IsAt time m history h v = record {
      named = v.named;
      messages = add_message-recent time m h.conv history v.messages;
      held = λ stored. rw stored (lookup-insert_self _ _ _);
      kept = v.kept;
    }

    run_tools-IsAt :
        (calls : List ToolCall) (history : List Message) (h : Held) (w : W)
        → Appends tools
        → IsAt tools id history h
        → (answers : List Message) × Answers calls answers
          × IsAt tools id (history ++ answers) (run_tools marshal now tools calls h w).0
    unfolding run_tools
    run_tools-IsAt [] history h w keeps v =
        ([], no_calls, subst (λ hs. IsAt tools id hs h) (sym (append-nil history)) v)
    run_tools-IsAt (call ∷ calls) history h w keeps v =
        let r = execute_tool marshal now tools call h w in
        let m = tool_message r.0 call in
        let (own, v1) = execute_tool-IsAt tools id call history h w keeps v in
        let v2 = say-IsAt (now r.2) m (history ++ own) r.1 v1 in
        let (answers, replies, v3) =
          run_tools-IsAt calls ((history ++ own) ++ m ∷ []) (say (now r.2) m r.1) r.2 keeps v2 in
        (
          own ++ m ∷ answers,
          answer call calls own m answers refl refl replies,
          subst (λ hs. IsAt tools id hs (run_tools marshal now tools (call ∷ calls) h w).0)
              (append_assoc (history ++ own) (m ∷ []) answers
                ∙ append_assoc history own (m ∷ answers))
              v3,
        )

  -- The messages that the rounds add, in a dialogue of no more rounds.
  abbrev pub Talked :
      Llm W → Agent W → String → ℕ → String → List Message → Reply × Held × W → Type 0
  Talked llm a prompt n id history r =
      (new : List Message) × Dialogue llm a prompt n history new r.0
      × IsAt a.tool_executor id (history ++ new) r.1

  module _ (llm : Llm W) (a : Agent W) (prompt : String) where
    module _ (n : ℕ) (h : Held) (w : W) where
      pub asked : Result GoError ChatResponse × W
      asked =
          llm.ask (said "system" prompt ∷ h.conv.messages) (tool_definitions a.tool_executor)
            a.max_tokens w

      pub rounds_failed :
          (e : GoError)
          → asked.0 ≡ err e
          → rounds marshal now llm a prompt (suc n) h w
            ≡ (gave_up (wrapped "LLM error" e), h, asked.1)
      unfolding rounds asked
      rounds_failed e failed = ground (arith, failed)

      pub rounds_quiet :
          (r : ChatResponse)
          → asked.0 ≡ ok r
          → r.tool_calls ≡ []
          → rounds marshal now llm a prompt (suc n) h w
            ≡ (answered r.message.content, say (now asked.1) r.message h, asked.1)
      unfolding rounds asked
      rounds_quiet r replied quiet = ground (arith, replied, quiet)

      pub rounds_busy :
          (r : ChatResponse) (call : ToolCall) (calls : List ToolCall)
          → asked.0 ≡ ok r
          → r.tool_calls ≡ call ∷ calls
          → let heard = say (now asked.1) r.message h in
            let done = run_tools marshal now a.tool_executor (call ∷ calls) heard asked.1 in
            rounds marshal now llm a prompt (suc n) h w
            ≡ rounds marshal now llm a prompt n done.0 done.1
      unfolding rounds asked
      rounds_busy r call calls replied busy = ground (arith, replied, busy)

    pub rounds-Talked :
        (n : ℕ) (id : String) (history : List Message) (h : Held) (w : W)
        → Appends a.tool_executor
        → IsAt a.tool_executor id history h
        → Talked llm a prompt n id history (rounds marshal now llm a prompt n h w)
    unfolding rounds asked
    rounds-Talked zero id history h w keeps v =
        ([], spent history, subst (λ hs. IsAt a.tool_executor id hs h) (sym (append-nil history)) v)
    rounds-Talked (suc n) id history h w keeps v =
        let w' = (asked n h w).1 in
        let same : (llm.ask (said "system" prompt ∷ recent history)
              (tool_definitions a.tool_executor) a.max_tokens w).0
            ≡ (asked n h w).0 =
          ap
            (λ ms.
              (llm.ask (said "system" prompt ∷ ms) (tool_definitions a.tool_executor) a.max_tokens
                w).0)
            (sym v.messages) in
        let close =
          λ (r : Reply × Held × W) (p : rounds marshal now llm a prompt (suc n) h w ≡ r)
              (t : Talked llm a prompt (suc n) id history r).
            subst (Talked llm a prompt (suc n) id history) (sym p) t in
        elim (Result-cases (asked n h w).0) [
          | inr (problem, failed) ↦ close _ (rounds_failed n h w problem failed) (
            [],
            lost n history problem (w, same ∙ failed),
            subst (λ hs. IsAt a.tool_executor id hs h) (sym (append-nil history)) v,
          )
          | inl (r, replied) ↦
              let heard = say (now w') r.message h in
              let v1 = say-IsAt a.tool_executor id (now w') r.message history h v in
              elim (List-cases r.tool_calls) [
                | inl quiet ↦
                    close _ (rounds_quiet n h w r replied quiet)
                      (r.message ∷ [], last n history r (w, same ∙ replied) quiet, v1)
                | inr (call, calls, busy) ↦
                    let (answers, replies, v2) =
                      run_tools-IsAt a.tool_executor id (call ∷ calls) (history ++ r.message ∷ [])
                        heard w' keeps v1 in
                    let done = run_tools marshal now a.tool_executor (call ∷ calls) heard w' in
                    let (new, dialogue, v3) =
                      rounds-Talked n id (history ++ r.message ∷ answers) done.0 done.1 keeps (
                        subst (λ hs. IsAt a.tool_executor id hs done.0)
                          (append_assoc history (r.message ∷ []) answers) v2) in
                    close _ (rounds_busy n h w r call calls replied busy) (
                      r.message ∷ answers ++ new,
                      turn n history r answers new _ (w, same ∙ replied)
                          (λ (q : r.tool_calls ≡ []). cc (busy, q))
                          (subst (λ cs. Answers cs answers) (sym busy) replies) dialogue,
                      subst
                          (λ hs.
                            IsAt a.tool_executor id hs
                              (rounds marshal now llm a prompt n done.0 done.1).1)
                          (append_assoc history (r.message ∷ answers) new) v3,
                    )
              ]
        ]
