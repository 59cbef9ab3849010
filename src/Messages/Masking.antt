-- ===== src/Messages/Masking.antt =====
-- Masked fields never show (app/application/message_service.py).
use queuelens.Prelude.{
  ℕ, ◌≡◌, ◌⊎◌, inl, inr, refl, sym, ◌∙◌, ap, subst, String, true, Option, none, List, [], ◌∷◌,
  string_eq, contains, map, Dict, Bool-cases,
}
use queuelens.Value.{Value, Values, nil, cons, Fields, end, field, list, dict}
use queuelens.Failure.{ok, Result-cases, returned, raised}
use queuelens.Domain.{MessageRecord}
use queuelens.Domain.XDeath.{deaths}
use queuelens.Broker.Keeps.{ok-injective}
use queuelens.Messages.{
  Decoded, Shown, fields_of, dicts_of, encoded, is_over, Rendering, normalize_key, masked_value,
  jsonable, jsonable_values, jsonable_fields, message_to_dict,
}

-- The key's value is hidden.
abbrev pub IsMasked : Rendering → List String → String → Type 0
IsMasked f masked k = contains masked (normalize_key f k) ≡ true

-- Values that differ at most under masked keys, however deep.
mutual
  pub data Alike (f : Rendering) (masked : List String) : Value → Value → Type 0 where
    same : (v : Value) → Alike f masked v v
    lists : (vs ws : Values) → AlikeValues f masked vs ws → Alike f masked (list vs) (list ws)
    dicts : (d e : Fields) → AlikeFields f masked d e → Alike f masked (dict d) (dict e)

  pub data AlikeValues (f : Rendering) (masked : List String) : Values → Values → Type 0 where
    none_left : AlikeValues f masked nil nil
    both :
        (v w : Value) (vs ws : Values)
        → Alike f masked v w
        → AlikeValues f masked vs ws
        → AlikeValues f masked (cons v vs) (cons w ws)

  pub data AlikeFields (f : Rendering) (masked : List String) : Fields → Fields → Type 0 where
    ended : AlikeFields f masked end end
    shown :
        (k : String) (v w : Value) (d e : Fields)
        → Alike f masked v w
        → AlikeFields f masked d e
        → AlikeFields f masked (field k v d) (field k w e)
    hidden :
        (k : String) (v w : Value) (d e : Fields)
        → IsMasked f masked k
        → AlikeFields f masked d e
        → AlikeFields f masked (field k v d) (field k w e)

module _ (f : Rendering) (masked : List String) where
  mutual
    unfolding jsonable

    jsonable-Alike : (v w : Value) → Alike f masked v w → jsonable f masked v ≡ jsonable f masked w
    jsonable-Alike _ _ (same v) = refl
    jsonable-Alike _ _ (lists vs ws a) = ap list (jsonable_values-Alike vs ws a)
    jsonable-Alike _ _ (dicts d e a) = ap dict (jsonable_fields-Alike d e a)

    jsonable_values-Alike :
        (vs ws : Values)
        → AlikeValues f masked vs ws
        → jsonable_values f masked vs ≡ jsonable_values f masked ws
    jsonable_values-Alike _ _ none_left = refl
    jsonable_values-Alike _ _ (both v w vs ws a rest) =
        cc (jsonable-Alike v w a, jsonable_values-Alike vs ws rest)

    jsonable_fields-Alike :
        (d e : Fields)
        → AlikeFields f masked d e
        → jsonable_fields f masked d ≡ jsonable_fields f masked e
    jsonable_fields-Alike _ _ ended = refl
    jsonable_fields-Alike _ _ (shown k v w d e a rest) =
        cc (jsonable-Alike v w a, jsonable_fields-Alike d e rest)
    jsonable_fields-Alike _ _ (hidden k v w d e h rest) =
        rw h (ap (field k masked_value) (jsonable_fields-Alike d e rest))

-- What two messages show, where nothing tells apart the values of masked keys.
pub record ShownAlike (f : Rendering) (masked : List String) (payload : Value)
    (x_death : List (Dict String Value)) (s t : Shown) : Type 0 where
  pub payload_alike : s.payload ≡ t.payload
  pub truncated_alike : s.payload_truncated ≡ t.payload_truncated
  pub headers_alike : s.headers ≡ t.headers
  pub properties_alike : s.properties ≡ t.properties
  pub encoded_hidden :
      (s.payload_encoded ≡ none)
      ⊎ (masked ≡ [])
      ⊎ (f.equal (jsonable f masked payload) (jsonable f [] payload) ≡ true)
  pub x_death_open : s.x_death ≡ list (jsonable_values f [] (dicts_of x_death))

encoded-hidden :
    (f : Rendering) (max_size : Option ℕ) (masked : List String) (d : Decoded)
    → (encoded f max_size masked d ≡ none)
      ⊎ (masked ≡ [])
      ⊎ (f.equal (jsonable f masked d.payload) (jsonable f [] d.payload) ≡ true)
encoded-hidden f max_size [] d = inr (inl refl)
encoded-hidden f max_size (k ∷ ks) d =
    elim (Bool-cases (f.equal (jsonable f (k ∷ ks) d.payload) (jsonable f [] d.payload))) [
      | inl agrees ↦ inr (inr agrees)
      | inr other ↦ elim (Bool-cases (is_over max_size d.payload_size)) [
        | inl over ↦ inl (rw over refl)
        | inr fits ↦ inl (rw (fits, other) refl)
      ]
    ]

-- Where a message's payload, headers and properties are shown, nothing of what stands under a masked key
-- shows: of two messages with payloads of one size that differ there at most in the values of masked
-- keys, at any depth, all three are shown alike. The raw body is shown only if no field is masked or if
-- masking leaves the rendered payload as it is. The death history besides, `x_death`, is shown with no
-- key masked.
pub message_to_dict-Alike :
    (f : Rendering) (max_size : Option ℕ) (masked_fields : List String) (d d' : Decoded)
    (properties properties' : Fields) (m m' : MessageRecord) (s t : Shown)
    → d.payload_size ≡ d'.payload_size
    → Alike f (map (normalize_key f) masked_fields) d.payload d'.payload
    → AlikeFields f
        (map (normalize_key f) masked_fields)
        (fields_of m.headers)
        (fields_of m'.headers)
    → AlikeFields f (map (normalize_key f) masked_fields) properties properties'
    → message_to_dict f max_size masked_fields d properties m ≡ ok s
    → message_to_dict f max_size masked_fields d' properties' m' ≡ ok t
    → ShownAlike f (map (normalize_key f) masked_fields) d.payload m.x_death s t
unfolding message_to_dict jsonable
message_to_dict-Alike f max_size masked_fields d d' properties properties' m m' s t size p q r e
      e' =
    elim (Result-cases (deaths m.x_death m.headers)) [
      | raised x bad ↦ cc (rw bad at e)
      | returned n counted ↦ elim (Result-cases (deaths m'.x_death m'.headers)) [
        | raised x bad ↦ cc (rw bad at e')
        | returned n' counted' ↦
            let masked = map (normalize_key f) masked_fields in
            let left = ok-injective (rw counted at e) in
            let right = ok-injective (rw counted' at e') in
            record {
              payload_alike =
                  sym (ap (λ x. x.payload) left)
                  ∙ rw (size, jsonable-Alike f masked d.payload d'.payload p) refl
                  ∙ ap (λ x. x.payload) right;
              truncated_alike =
                  sym (ap (λ x. x.payload_truncated) left)
                  ∙ ap (is_over max_size) size
                  ∙ ap (λ x. x.payload_truncated) right;
              headers_alike =
                  sym (ap (λ x. x.headers) left)
                  ∙ ap dict (
                      jsonable_fields-Alike f masked (fields_of m.headers) (fields_of m'.headers) q)
                  ∙ ap (λ x. x.headers) right;
              properties_alike =
                  sym (ap (λ x. x.properties) left)
                  ∙ ap dict (jsonable_fields-Alike f masked properties properties' r)
                  ∙ ap (λ x. x.properties) right;
              encoded_hidden =
                  subst
                    (λ o.
                      (o ≡ none)
                      ⊎ (masked ≡ [])
                      ⊎ (f.equal (jsonable f masked d.payload) (jsonable f [] d.payload) ≡ true))
                    (ap (λ x. x.payload_encoded) left) (encoded-hidden f max_size masked d);
              x_death_open = sym (ap (λ x. x.x_death) left);
            }
      ]
    ]
