-- ===== src/Protocol/Trimmed.antt =====
-- `QByteArray::trimmed`, which takes the whitespace off both ends.
use ice_adapter.Base.{
  ℕ, suc, ◌≡◌, ◌≤◌, refl, ap, sym, ◌∙◌, Bytes, List, [], ◌∷◌, ◌++◌, Option, none, some, take, drop,
  length, arith, length-take, length-drop, take-length-append, append_assoc,
}
use ice_adapter.Json.{JsonLib, JsonLaws}
use ice_adapter.Rpc.Stream.{
  EndsTight, take-all, find_last_not-newline, AreMessages, stream, behind, joined, stream-behind,
  joined-EndsTight,
}
use ice_adapter.Rpc.Trim.{is_whitespace, find_first_not, find_last_not}

abbrev pub front_from : Bytes → Option ℕ → Bytes
front_from b none = []
front_from b (some n) = drop n b

abbrev pub back_to : Bytes → Option ℕ → Bytes
back_to b none = []
back_to b (some n) = take (suc n) b

abbrev pub trim_back : Bytes → Bytes
trim_back b = back_to b (find_last_not b)

unfoldable pub trimmed : Bytes → Bytes
unfolding find_first_not find_last_not
trimmed b = trim_back (front_from b (find_first_not b))

front-shorter : (b : Bytes) (r : Option ℕ) → length (front_from b r) ≤ length b
front-shorter b none = omega arith
front-shorter b (some n) = omega (arith, length-drop n b)

back-shorter : (b : Bytes) (r : Option ℕ) → length (back_to b r) ≤ length b
back-shorter b none = omega arith
back-shorter b (some n) = omega (arith, length-take (suc n) b)

pub trimmed-shorter : (b : Bytes) → length (trimmed b) ≤ length b
unfolding trimmed
trimmed-shorter b =
    let f = front_from b (find_first_not b) in
    omega (arith, front-shorter b (find_first_not b), back-shorter f (find_last_not f))

trim_back-tight : (b : Bytes) → EndsTight b → trim_back b ≡ b
unfolding EndsTight
trim_back-tight b (k, e, h) = ap (back_to b) e ∙ take-all (suc k) b (omega (arith, h))

trim_back-newline : (b : Bytes) → EndsTight b → trim_back (b ++ (10 ∷ [])) ≡ b
unfolding EndsTight
trim_back-newline b (k, e, h) =
    ap (back_to (b ++ (10 ∷ []))) (find_last_not-newline b ∙ e)
    ∙ ap (λ n. take n (b ++ (10 ∷ []))) h
    ∙ take-length-append b (10 ∷ [])

module _ (J : JsonLib) (laws : JsonLaws J) where
  pub trimmed-behind :
      (ms : List (Bytes × J.Value))
      → AreMessages J laws ms
      → trimmed (behind J laws ms) ≡ joined J laws ms
  unfolding trimmed find_first_not find_last_not is_whitespace
  trimmed-behind [] h = refl
  trimmed-behind (m ∷ ms) h =
      trim_back-tight (123 ∷ (m.0 ++ behind J laws ms)) (joined-EndsTight J laws m ms h)

  pub trimmed-stream :
      (ms : List (Bytes × J.Value))
      → AreMessages J laws ms
      → trimmed (stream J laws ms) ≡ joined J laws ms
  unfolding trimmed find_first_not find_last_not is_whitespace
  trimmed-stream [] h = refl
  trimmed-stream (m ∷ ms) h =
      ap (λ b. trim_back ((123 ∷ m.0) ++ b)) (stream-behind J laws ms)
      ∙ ap trim_back (sym (append_assoc (123 ∷ m.0) (behind J laws ms) (10 ∷ [])))
      ∙ trim_back-newline (123 ∷ (m.0 ++ behind J laws ms)) (joined-EndsTight J laws m ms h)
