-- ===== src/Rpc/Responses.antt =====
-- JsonRpc.cpp `_processRequest`: the members of a response.
use ice_adapter.Base.{◌≡◌, refl, ◌∙◌, inl, inr, Bytes, Bool, true, false, some, codes, str_eq}
use ice_adapter.Json.{JsonLib, JsonLaws, ObjectLaws, HoldsMembers}
use ice_adapter.Rpc.Framing.{is_null}

module _ (J : JsonLib) (laws : JsonLaws J) (objects : ObjectLaws J) where
  open J use {Value, null, of_string, set_member, member, is_member, value_type, as_string, write}

  pub holds_set :
      (v : Value) (k : Bytes) (x : Value) → HoldsMembers J v → HoldsMembers J (set_member v k x)
  holds_set v k x h = inr (objects.type-set_member v k x h)

  pub member_same :
      (v : Value) (k : Bytes) (x : Value)
      → HoldsMembers J v
      → str_eq k k ≡ true
      → member (set_member v k x) k ≡ some x
  member_same v k x h same = objects.member-set_member v k k x h ∙ (rw same refl)

  pub member_other :
      (v : Value) (k j : Bytes) (x : Value)
      → HoldsMembers J v
      → str_eq j k ≡ false
      → member (set_member v k x) j ≡ member v j
  member_other v k j x h differs = objects.member-set_member v k j x h ∙ (rw differs refl)

  pub is_member_other :
      (v : Value) (k j : Bytes) (x : Value)
      → HoldsMembers J v
      → str_eq j k ≡ false
      → is_member (set_member v k x) j ≡ is_member v j
  is_member_other v k j x h differs = objects.is_member-set_member v k j x h ∙ (rw differs refl)

  -- The members that every response has: the protocol's version, and the id of the request.
  abbrev pub CarriesId : Value → Value → Type 0
  CarriesId response x =
      (member response (codes "jsonrpc") ≡ some (of_string (codes "2.0")))
      × (member response (codes "id") ≡ some x)

  -- Exactly one of a result and an error: the result unless it is null, then the error unless it is
  -- null, and else a text.
  abbrev pub RepliesBy : Bool → Bool → Value → Value → Value → Type 0
  RepliesBy false b response r e =
      (member response (codes "result") ≡ some r) × (is_member response (codes "error") ≡ false)
  RepliesBy true false response r e =
      (member response (codes "error") ≡ some e) × (is_member response (codes "result") ≡ false)
  RepliesBy true true response r e =
      (member response (codes "error") ≡ some (of_string (codes "invalid response")))
      × (is_member response (codes "result") ≡ false)

  abbrev pub Replies : Value → Value → Value → Type 0
  Replies response r e = RepliesBy (is_null J r) (is_null J e) response r e

  -- What `response_to` makes for a request with an id.
  abbrev pub version : Value
  version = set_member null (codes "jsonrpc") (of_string (codes "2.0"))

  abbrev pub start_of : Value → Value
  start_of x = set_member version (codes "id") x

  pub version_holds : HoldsMembers J version
  version_holds = holds_set null (codes "jsonrpc") (of_string (codes "2.0")) (inl laws.type-null)

  pub start_of_holds : (x : Value) → HoldsMembers J (start_of x)
  start_of_holds x = holds_set version (codes "id") x version_holds

  pub start_of-CarriesId : (x : Value) → CarriesId (start_of x) x
  unfolding str_eq
  start_of-CarriesId x = (
    member_other version (codes "id") (codes "jsonrpc") x version_holds refl
        ∙ member_same null (codes "jsonrpc") (of_string (codes "2.0")) (inl laws.type-null) refl,
    member_same version (codes "id") x version_holds refl,
  )

  pub set_member-CarriesId :
      (x : Value) (k : Bytes) (y : Value)
      → str_eq (codes "jsonrpc") k ≡ false
      → str_eq (codes "id") k ≡ false
      → CarriesId (set_member (start_of x) k y) x
  set_member-CarriesId x k y version_differs id_differs =
      let start = start_of-CarriesId x in
      (
        member_other (start_of x) k (codes "jsonrpc") y (start_of_holds x) version_differs
            ∙ start.0,
        member_other (start_of x) k (codes "id") y (start_of_holds x) id_differs ∙ start.1,
      )

  pub start_of_empty :
      (x : Value) (j : Bytes)
      → str_eq j (codes "jsonrpc") ≡ false
      → str_eq j (codes "id") ≡ false
      → is_member (start_of x) j ≡ false
  start_of_empty x j version_differs id_differs =
      is_member_other version (codes "id") j x version_holds id_differs
      ∙ is_member_other null (codes "jsonrpc") j (of_string (codes "2.0")) (inl laws.type-null)
          version_differs
      ∙ objects.is_member-null j

  -- A response with a result has no error, and the other way round.
  abbrev pub HasOnly : Bytes → Bytes → Value → Value → Type 0
  HasOnly k j response y = (member response k ≡ some y) × (is_member response j ≡ false)

  pub with_result-HasOnly :
      (x y : Value)
      → HasOnly (codes "result") (codes "error") (set_member (start_of x) (codes "result") y) y
  unfolding str_eq
  with_result-HasOnly x y = (
    member_same (start_of x) (codes "result") y (start_of_holds x) refl,
    is_member_other (start_of x) (codes "result") (codes "error") y (start_of_holds x) refl
        ∙ start_of_empty x (codes "error") refl refl,
  )

  pub with_error-HasOnly :
      (x y : Value)
      → HasOnly (codes "error") (codes "result") (set_member (start_of x) (codes "error") y) y
  unfolding str_eq
  with_error-HasOnly x y = (
    member_same (start_of x) (codes "error") y (start_of_holds x) refl,
    is_member_other (start_of x) (codes "error") (codes "result") y (start_of_holds x) refl
        ∙ start_of_empty x (codes "result") refl refl,
  )
