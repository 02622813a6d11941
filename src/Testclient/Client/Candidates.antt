-- ===== src/Testclient/Client/Candidates.antt =====
-- legacy_testclient/IceCandidate.cpp, and legacy_testclient/Testclient.cpp `onIceMessage`.
use ice_adapter.Base.{
  ℕ, ℤ, Bytes, Bool, true, false, not, ◌&&◌, ◌||◌, List, [], ◌∷◌, ◌++◌, Option, none, some, codes,
  if◌then◌else◌, ◌==◌, str_eq, drop,
}
use ice_adapter.Base.IntMap.{find, assign}
use ice_adapter.Json.{JsonLib}
use ice_adapter.Adapter.Game.{json_array}
use ice_adapter.Testclient.Client.{IceCandidate, Boxes, Testclient, request_adapter}
use ice_adapter.Testserver.{Exec, ◌>>=◌, lift, modify}

-- `startsWith`
unfoldable pub starts_with : Bytes → Bytes → Bool
starts_with [] s = true
starts_with (c ∷ cs) [] = false
starts_with (c ∷ cs) (d ∷ ds) = let rest = starts_with cs ds in if c == d then rest else false

-- The text behind the first place where `candidate:` stands. Where it stands nowhere, `indexOf` is -1, and the
-- text from the tenth character less one.
abbrev pub label : Bytes
label = codes "candidate:"

unfoldable pub after_label : Bytes → Option Bytes
unfolding starts_with
after_label [] = none
after_label (c ∷ cs) =
    let rest = after_label cs in
    if starts_with label (c ∷ cs) then some (drop 10 (c ∷ cs)) else rest

abbrev pub or_ninth : Bytes → Option Bytes → Bytes
or_ninth s none = drop 9 s
or_ninth s (some rest) = rest

abbrev pub cons_field : ℕ → List Bytes → List Bytes
cons_field c [] = (c ∷ []) ∷ []
cons_field c (f ∷ fs) = (c ∷ f) ∷ fs

-- `split(' ')`
unfoldable pub split : Bytes → List Bytes
split [] = [] ∷ []
split (c ∷ cs) = let rest = split cs in if c == 32 then [] ∷ rest else cons_field c rest

-- The fields 0 to 7; an index that is out of range stops the program.
abbrev pub of_fields : List Bytes → Option IceCandidate
of_fields (foundation ∷ component ∷ protocol ∷ priority ∷ address ∷ port ∷ typ ∷ type ∷ rest) =
    some (record {
      component = component;
      type = type;
      foundation = foundation;
      protocol = protocol;
      address = address;
      port = port;
      priority = priority;
    })
of_fields _ = none

unfoldable pub from_string : Bytes → Option IceCandidate
unfolding after_label split
from_string s = of_fields (split (or_ninth s (after_label s)))

abbrev pub is_kind : Bytes → Bytes → IceCandidate → Bool
is_kind protocol type c = str_eq c.protocol protocol && str_eq c.type type

-- The six tests.
unfoldable pub is_omitted : Boxes → IceCandidate → Bool
is_omitted b c =
    (not b.udp_host && is_kind (codes "udp") (codes "host") c)
    || ((not b.udp_srflx && is_kind (codes "udp") (codes "srflx") c)
        || ((not b.udp_relay && is_kind (codes "udp") (codes "relay") c)
            || ((not b.tcp_host && is_kind (codes "tcp") (codes "host") c)
                || ((not b.tcp_srflx && is_kind (codes "tcp") (codes "srflx") c)
                    || (not b.tcp_relay && is_kind (codes "tcp") (codes "relay") c)))))

-- `m[peerId].push_back(candidate)`
abbrev pub listed : Option (List IceCandidate) → List IceCandidate
listed none = []
listed (some cs) = cs

abbrev pub push_back :
    ℤ → IceCandidate → List (ℤ × List IceCandidate) → List (ℤ × List IceCandidate)
push_back peer c m = assign peer (listed (find peer m) ++ (c ∷ [])) m

module _ (J : JsonLib) (F : Type 0) (average : F → ℕ → ℕ → F) where
  open J use {Value, of_int, is_member, member, as_string}

  -- The end of `onIceMessage`.
  abbrev pub to_adapter : ℤ → Value → Testclient J F average → Testclient J F average
  to_adapter peer msg c =
      request_adapter J F average (codes "iceMsg") (json_array J (of_int peer ∷ (msg ∷ []))) c

  abbrev pub sort_candidate :
      Bool → ℤ → Value → IceCandidate → Testclient J F average → Testclient J F average
  sort_candidate true peer msg candidate c = record c {
    omitted_candidates = push_back peer candidate c.omitted_candidates;
  }
  sort_candidate false peer msg candidate c =
      to_adapter peer msg
        (record c { kept_candidates = push_back peer candidate c.kept_candidates })

  abbrev pub on_candidate : ℤ → Value → Exec (Testclient J F average) (Unit {0})
  on_candidate peer msg = lift (member msg (codes "candidate")) >>= λ v.
      lift (member v (codes "candidate")) >>= λ w. lift (as_string w) >>= λ s.
      lift (from_string s) >>= λ candidate. modify (λ c.
        sort_candidate (starts_with (codes "candidate") s && is_omitted c.boxes candidate) peer msg
          candidate c)

  abbrev pub by_type : ℤ → Value → Bool → Exec (Testclient J F average) (Unit {0})
  by_type peer msg true = on_candidate peer msg
  by_type peer msg false = modify (to_adapter peer msg)

  -- `none` stands for an exception, and for an index that is out of range.
  unfoldable pub on_ice_message : ℤ → Value → Exec (Testclient J F average) (Unit {0})
  unfolding from_string is_omitted starts_with
  on_ice_message peer msg =
      if is_member msg (codes "type")
      then (lift (member msg (codes "type")) >>= λ v.
          lift (as_string v) >>= λ s. by_type peer msg (str_eq s (codes "candidate")))
      else modify (to_adapter peer msg)
