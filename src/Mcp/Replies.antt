-- ===== src/Mcp/Replies.antt =====
-- What the JSON-RPC handler answers, and when it runs a tool.
use folk_around.Prelude.{
  true, false, Option, none, some, if◌then◌else◌, ◌≡◌, ◌≢◌, refl, arith, ◌⊎◌, inl, inr, ap, ◌∙◌,
  if_cases,
}
use folk_around.Text.{Text, codes, text_eq}
use folk_around.Text.Laws.{text_eq_iff}
use folk_around.Json.{
  Number, bool, number, array, Value, null, string, Fields, get, get_field, object,
}
use folk_around.Effect.{Result, ok}
use folk_around.Mcp.{ToolTable, call}
use folk_around.Mcp.Handler.{
  Server, map_some, unwrap_or_null, is_none_or_null, response_value, error_value, json_response,
  error_response, CallParams, no_params, no_name, named, call_params, method_in, handle_call,
  handle_method, handle_message,
}

-- `v` answers the request `id`: it names the id, and holds a result or an error, never both.
pub record IsAnswer (id v : Value) : Type 0 where
  pub version : get v (codes "jsonrpc") ≡ some (string (codes "2.0"))
  pub same_id : get v (codes "id") ≡ some id
  pub one_outcome :
      ((get v (codes "result") ≢ none) × (get v (codes "error") ≡ none))
      ⊎ ((get v (codes "result") ≡ none) × (get v (codes "error") ≢ none))

response_value-IsAnswer : (id result : Value) → IsAnswer id (response_value id result)
unfolding response_value get get_field text_eq codes
response_value-IsAnswer id result = record {
  version = refl;
  same_id = refl;
  one_outcome = inl ((λ e. cc), refl);
}

error_value-IsAnswer :
    (id : Value) (code : Number) (message : Text) → IsAnswer id (error_value id code message)
unfolding error_value get get_field text_eq codes
error_value-IsAnswer id code message = record {
  version = refl;
  same_id = refl;
  one_outcome = inr (refl, (λ e. cc));
}

-- What a message with the members `members` is: a call of a tool, or anything else.
pub record CallsTool (members : Fields) (name : Text) (arguments : Value) : Type 0 where
  pub request : is_none_or_null (get_field (codes "id") members) ≡ false
  pub method : get_field (codes "method") members ≡ some (string (codes "tools/call"))
  pub params : call_params (get_field (codes "params") members) ≡ named name arguments

method_in-cases :
    (members : Fields) (o : Option Value)
    → (method_in members o ≡ none)
      ⊎ ((m : Text) × (o ≡ some (string m)) × (method_in members o ≡ some (members, m)))
method_in-cases members (some (string m)) = inr (m, refl, refl)
method_in-cases members none = inl refl
method_in-cases members (some null) = inl refl
method_in-cases members (some (bool b)) = inl refl
method_in-cases members (some (number n)) = inl refl
method_in-cases members (some (array vs)) = inl refl
method_in-cases members (some (object fs)) = inl refl

module _ {E : Type 0} (server : Server E) where
  abbrev Answers : Value → Result (Option Text) E → Type 0
  Answers id r = (v : Value) × (r ≡ map_some (server.to_string v)) × IsAnswer id v

  response_Answers : (id result : Value) → Answers id (json_response server id result)
  response_Answers id result = (_, refl, response_value-IsAnswer id result)

  error_Answers :
      (id : Value) (code : Number) (m : Text) → Answers id (error_response server id code m)
  error_Answers id code m = (_, refl, error_value-IsAnswer id code m)

module _ {W E : Type 0} (server : Server E) (table : ToolTable W) where
  handle_call-Answers :
      (id : Value) (params : CallParams) (w : W)
      → Answers server id (handle_call server table id params w).0
  unfolding handle_call
  handle_call-Answers id no_params w = error_Answers server id _ _
  handle_call-Answers id no_name w = error_Answers server id _ _
  handle_call-Answers id (named name arguments) w = response_Answers server id _

  handle_method_silent :
      (members : Fields) (method : Text) (id : Option Value) (w : W)
      → is_none_or_null id ≡ true
      → handle_method server table members method id w ≡ (ok none, w)
  unfolding handle_method
  handle_method_silent members method id w h = ground arith

  -- A message whose `id` is absent or null gets no answer and runs no tool, whatever its method.
  pub notification_silent :
      (members : Fields) (w : W)
      → is_none_or_null (get_field (codes "id") members) ≡ true
      → handle_message server table (object members) w ≡ (ok none, w)
  unfolding handle_message
  notification_silent members w h =
      elim (method_in-cases members (get_field (codes "method") members)) [
        | inl e ↦ rw (e, handle_message)
        | inr (m, _, e) ↦ rw (e, handle_message) (handle_method_silent members m _ w h)
      ]

  abbrev pub MayAnswer : Option Value → Result (Option Text) E × W → Type 0
  MayAnswer id t =
      (t.0 ≡ ok none) ⊎ (is_none_or_null id ≡ false) × Answers server (unwrap_or_null id) t.0

  guard_MayAnswer :
      (id : Option Value) (w : W) (r : Result (Option Text) E × W)
      → (Answers server (unwrap_or_null id) r.0)
      → MayAnswer id (if is_none_or_null id then (ok none, w) else r)
  guard_MayAnswer id w r a =
      if_cases (MayAnswer id) (is_none_or_null id) (λ _. inl refl) (λ e. inr (e, a))

  handle_method-MayAnswer :
      (members : Fields) (method : Text) (id : Option Value) (w : W)
      → MayAnswer id (handle_method server table members method id w)
  unfolding handle_method
  handle_method-MayAnswer members method id w =
      let P = MayAnswer id in
      if_cases P (text_eq method (codes "initialize"))
        (λ _. guard_MayAnswer id w _ (response_Answers server _ _))
        λ _.
          if_cases P (text_eq method (codes "notifications/initialized")) (λ _. inl refl)
            λ _.
              if_cases P (text_eq method (codes "ping"))
                (λ _. guard_MayAnswer id w _ (response_Answers server _ _))
                λ _.
                  if_cases P (text_eq method (codes "tools/list"))
                    (λ _. guard_MayAnswer id w _ (response_Answers server _ _))
                    λ _.
                      if_cases P (text_eq method (codes "tools/call"))
                        (λ _. guard_MayAnswer id w _ (handle_call-Answers _ _ w))
                        (λ _. guard_MayAnswer id w _ (error_Answers server _ _ _))

  -- Every answer is the serialisation of one value that names the id of the request and holds a
  -- result or an error, never both; there is one only if the id is neither absent nor null.
  pub handle_message_answers :
      (members : Fields) (w : W)
      → MayAnswer (get_field (codes "id") members) (handle_message server table (object members) w)
  unfolding handle_message
  handle_message_answers members w =
      elim (method_in-cases members (get_field (codes "method") members)) [
        | inl e ↦ rw (e, handle_message) (inl refl)
        | inr (m, _, e) ↦ rw (e, handle_message) (handle_method-MayAnswer members m _ w)
      ]

  abbrev pub MayCall : Fields → W → Result (Option Text) E × W → Type 0
  MayCall members w t =
      (t.1 ≡ w)
      ⊎ (name : Text) × (arguments : Value) × CallsTool members name arguments
        × (t.1 ≡ (call table name arguments w).1)

  handle_call-MayCall :
      (members : Fields) (id : Value) (params : CallParams) (w : W)
      → is_none_or_null (get_field (codes "id") members) ≡ false
      → get_field (codes "method") members ≡ some (string (codes "tools/call"))
      → call_params (get_field (codes "params") members) ≡ params
      → MayCall members w (handle_call server table id params w)
  unfolding handle_call
  handle_call-MayCall members id no_params w i m p = inl refl
  handle_call-MayCall members id no_name w i m p = inl refl
  handle_call-MayCall members id (named name arguments) w i m p =
      inr (name, arguments, record { request = i; method = m; params = p }, refl)

  handle_method-MayCall :
      (members : Fields) (method : Text) (w : W)
      → get_field (codes "method") members ≡ some (string method)
      → MayCall members w
          (handle_method server table members method (get_field (codes "id") members) w)
  unfolding handle_method
  handle_method-MayCall members method w m =
      let P = MayCall members w in
      let id = get_field (codes "id") members in
      let silent = λ (r : Result (Option Text) E).
        if_cases P (is_none_or_null id) {x = (ok none, w)} {y = (r, w)} (λ _. inl refl)
          (λ _. inl refl) in
      if_cases P (text_eq method (codes "initialize")) (λ _. silent _)
        λ _.
          if_cases P (text_eq method (codes "notifications/initialized")) (λ _. inl refl)
            λ _.
              if_cases P (text_eq method (codes "ping")) (λ _. silent _)
                λ _.
                  if_cases P (text_eq method (codes "tools/list")) (λ _. silent _)
                    λ _.
                      if_cases P (text_eq method (codes "tools/call"))
                        (λ e.
                          if_cases P (is_none_or_null id) (λ _. inl refl)
                            (λ i.
                              handle_call-MayCall members _ _ w i
                                (m ∙ ap (λ t. some (string t)) ((text_eq_iff _ _).0 e)) refl))
                        (λ _. silent _)

  -- The world changes only by a `tools/call` request with an id and a named tool, and then as the
  -- call of that tool with those arguments changes it.
  pub handle_message_world :
      (members : Fields) (w : W)
      → MayCall members w (handle_message server table (object members) w)
  unfolding handle_message
  handle_message_world members w =
      elim (method_in-cases members (get_field (codes "method") members)) [
        | inl e ↦ rw (e, handle_message) (inl refl)
        | inr (m, h, e) ↦ rw (e, handle_message) (handle_method-MayCall members m w h)
      ]
