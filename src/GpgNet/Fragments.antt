-- ===== src/GpgNet/Fragments.antt =====
-- `parse` and `_onRead` do not depend on how the byte stream is cut.
use ice_adapter.Base.{
  ℕ, zero, suc, ◌<◌, ◌≡◌, refl, ap, sym, ◌∙◌, inl, inr, ◌≢◌, Bytes, List, [], ◌∷◌, ◌++◌, length,
  arith, append-nil, append_assoc, All, concat,
}
use ice_adapter.Json.{JsonLib}
use ice_adapter.GpgNet.Reader.{incomplete, unsupported, length_error, Outcome-cases}
use ice_adapter.GpgNet.Message.{
  GpgNetMessage, parse_one, Parsed, Halt, waiting, rejected, threw, out_of_fuel, stop, deliver,
  parse,
}
use ice_adapter.GpgNet.Stream.{parse_one-IsStable, parse_one_takes, parse_lem}
use ice_adapter.GpgNet.Handler.{on_read}

abbrev pub NonEmpty : Bytes → Type 0
NonEmpty b = 0 < length b

module _ (J : JsonLib) where
  -- Why `parse` stopped where it did.
  pub data Stopped (p : Parsed J) : Type 0 where
    short : p.halt ≡ waiting → parse_one J p.buffer ≡ incomplete → Stopped p
    refused : p.halt ≡ rejected → parse_one J p.buffer ≡ unsupported → Stopped p
    failed : p.halt ≡ threw → parse_one J p.buffer ≡ length_error → Stopped p

  deliver-Stopped : (m : GpgNetMessage J) (p : Parsed J) → Stopped p → Stopped (deliver J m p)
  unfolding deliver
  deliver-Stopped m p (short h e) = short h e
  deliver-Stopped m p (refused h e) = refused h e
  deliver-Stopped m p (failed h e) = failed h e

  parse-Stopped_below : (n : ℕ) (b : Bytes) → length b < n → Stopped (parse J b)
  unfolding stop
  parse-Stopped_below zero b h = absurd (omega arith)
  parse-Stopped_below (suc n) b h = elim (Outcome-cases (parse_one J b)) [
    | inl (m, rest, e) ↦
        rw (parse_lem J b, e)
          (deliver-Stopped m _
            (parse-Stopped_below n rest (omega (arith, parse_one_takes J b rest m e))))
    | inr (inl e) ↦ rw (parse_lem J b, e) (short refl e)
    | inr (inr (inl e)) ↦ rw (parse_lem J b, e) (refused refl e)
    | inr (inr (inr e)) ↦ rw (parse_lem J b, e) (failed refl e)
  ]

  -- `parse` ends on every buffer, and ends because the next message is incomplete, has a chunk of
  -- an unknown type, or has a negative size.
  pub parse-Stopped : (b : Bytes) → Stopped (parse J b)
  parse-Stopped b = parse-Stopped_below (suc (length b)) b (omega arith)

  -- `parse` on what is left, with more bytes behind it.
  abbrev pub resume : Parsed J → Bytes → Parsed J
  resume p more =
      let q = parse J (p.buffer ++ more) in record q { delivered = p.delivered ++ q.delivered }

  parse-append_below :
      (n : ℕ) (b c : Bytes) → length b < n → parse J (b ++ c) ≡ resume (parse J b) c
  unfolding stop deliver
  parse-append_below zero b c h = absurd (omega arith)
  parse-append_below (suc n) b c h = elim (Outcome-cases (parse_one J b)) [
    | inl (m, rest, e) ↦ elim (parse_one-IsStable J b c) [
      | inl lacks ↦ cc
      | inr s ↦
          rw (parse_lem J b, e, parse_lem J (b ++ c), s, e)
            (ap (deliver J m)
              (parse-append_below n rest c (omega (arith, parse_one_takes J b rest m e))))
    ]
    | inr (inl e) ↦ rw (parse_lem J b, e)
    | inr (inr (inl e)) ↦ rw (parse_lem J b, e)
    | inr (inr (inr e)) ↦ rw (parse_lem J b, e)
  ]

  -- To parse `b ++ c` is to parse `b`, and then what `b` leaves with `c` behind it.
  pub parse-append : (b c : Bytes) → parse J (b ++ c) ≡ resume (parse J b) c
  parse-append b c = parse-append_below (suc (length b)) b c (omega arith)

  -- What an exception or an unknown type leaves stays in the buffer, and nothing is delivered after.
  parse-unsupported :
      (b c : Bytes) → parse_one J b ≡ unsupported → parse J (b ++ c) ≡ stop J (b ++ c) rejected
  parse-unsupported b c e = elim (parse_one-IsStable J b c) [
    | inl lacks ↦ cc
    | inr s ↦ rw (parse_lem J (b ++ c), s, e)
  ]

  parse-length_error :
      (b c : Bytes) → parse_one J b ≡ length_error → parse J (b ++ c) ≡ stop J (b ++ c) threw
  parse-length_error b c e = elim (parse_one-IsStable J b c) [
    | inl lacks ↦ cc
    | inr s ↦ rw (parse_lem J (b ++ c), s, e)
  ]

  -- Once `parse` has met a chunk of an unknown type, whatever arrives later is appended to the
  -- buffer and no message is delivered again.
  pub rejected_forever :
      (b c : Bytes)
      → (parse J b).halt ≡ rejected
      → parse J ((parse J b).buffer ++ c) ≡ stop J ((parse J b).buffer ++ c) rejected
  rejected_forever b c h = stuck (parse-Stopped b)
    where
      stuck :
          Stopped (parse J b)
          → parse J ((parse J b).buffer ++ c) ≡ stop J ((parse J b).buffer ++ c) rejected
      stuck (short k e) = cc
      stuck (refused k e) = parse-unsupported (parse J b).buffer c e
      stuck (failed k e) = cc

  threw_sticks : (b c : Bytes) → (parse J b).halt ≡ threw → (parse J (b ++ c)).halt ≡ threw
  threw_sticks b c h = rw (parse-append b c) (stuck (parse-Stopped b))
    where
      stuck : Stopped (parse J b) → (parse J ((parse J b).buffer ++ c)).halt ≡ threw
      stuck (short k e) = cc
      stuck (refused k e) = cc
      stuck (failed k e) = rw (parse-length_error (parse J b).buffer c e) (unfold stop in refl)

  -- The two results agree in the messages delivered and in what stays in the buffer.
  abbrev pub SameEffect : Parsed J → Parsed J → Type 0
  SameEffect p q = (p.delivered ≡ q.delivered) × (p.buffer ≡ q.buffer)

  not_threw_branch : (h : Halt J) (p q : Parsed J) → h ≢ threw → (elim h [ threw ↦ p | _ ↦ q ]) ≡ q
  not_threw_branch waiting p q k = refl
  not_threw_branch rejected p q k = refl
  not_threw_branch threw p q k = absurd (k refl)
  not_threw_branch out_of_fuel p q k = refl

  on_read_step :
      (b f : Bytes) (fs : List Bytes)
      → NonEmpty f
      → (parse J (b ++ f)).halt ≢ threw
      → let p = parse J (b ++ f) in
        let q = on_read J p.buffer fs in
        on_read J b (f ∷ fs) ≡ record q { delivered = p.delivered ++ q.delivered }
  unfolding on_read
  on_read_step b [] fs n k = absurd (omega arith)
  on_read_step b (x ∷ xs) fs n k = not_threw_branch _ _ _ k

  on_read_one :
      (b f : Bytes)
      → NonEmpty f
      → (parse J (b ++ f)).halt ≢ threw
      → SameEffect (on_read J b (f ∷ [])) (parse J (b ++ f))
  unfolding on_read stop
  on_read_one b f n k = rw (on_read_step b f [] n k) (append-nil _, refl)

  parse_resumes : (b f rest : Bytes) → parse J (b ++ (f ++ rest)) ≡ resume (parse J (b ++ f)) rest
  parse_resumes b f rest = ap (parse J) (sym (append_assoc b f rest)) ∙ parse-append (b ++ f) rest

  -- Reading a stream in fragments delivers the messages that `parse` finds in the whole stream, and
  -- leaves the same bytes in `_currentMsg`, provided that `parse` of the whole does not throw.
  pub on_read_whole :
      (b f : Bytes) (fs : List Bytes)
      → NonEmpty f
      → All NonEmpty fs
      → (parse J (b ++ (f ++ concat fs))).halt ≢ threw
      → SameEffect (on_read J b (f ∷ fs)) (parse J (b ++ (f ++ concat fs)))
  on_read_whole b f [] n ns k = rw (append-nil f) (on_read_one b f n (rw (append-nil f) at k))
  on_read_whole b f (g ∷ gs) n (ng, ngs) k =
      let p = parse J (b ++ f) in
      let ih = on_read_whole p.buffer g gs ng ngs resumed in
      rw (on_read_step b f (g ∷ gs) n goes_on, parse_resumes b f (g ++ concat gs))
        (ap (λ ms. p.delivered ++ ms) ih.0, ih.1)
    where
      rest : Bytes
      rest = g ++ concat gs

      resumed : (parse J ((parse J (b ++ f)).buffer ++ rest)).halt ≢ threw
      resumed = λ e. k (ap (λ q. q.halt) (parse_resumes b f rest) ∙ e)

      goes_on : (parse J (b ++ f)).halt ≢ threw
      goes_on = λ e.
          k (
            ap (λ c. (parse J c).halt) (sym (append_assoc b f rest)) ∙ threw_sticks (b ++ f) rest e)
