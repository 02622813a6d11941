-- ===== src/Relay/Stats.antt =====
-- PeerRelayObservers.cpp `RTCStatsCollectorCallback::OnStatsDelivered`.
use ice_adapter.Base.{
  ℕ, Bytes, List, [], ◌∷◌, ◌++◌, Option, none, some, codes, str_eq, if◌then◌else◌, to_string,
}
use ice_adapter.Json.{JsonLib}
use ice_adapter.Relay.State.{PeerRelay}

-- `RTCIceCandidatePairStats` and `RTCIceCandidateStats`, the fields that are read.
pub record CandidatePair : Type 0 where
  pub state : Bytes
  pub local_candidate_id : Bytes
  pub remote_candidate_id : Bytes

pub record Candidate : Type 0 where
  pub protocol : Bytes
  pub ip : Bytes
  pub port : ℕ
  pub candidate_type : Bytes

pub record StatsReport : Type 0 where
  pub pairs : List CandidatePair
  pub get : Bytes → Option Candidate

-- The first pair that succeeded.
unfoldable pub succeeded : List CandidatePair → Option CandidatePair
succeeded [] = none
succeeded (p ∷ ps) = if str_eq p.state (codes "succeeded") then some p else succeeded ps

unfoldable pub describe : Candidate → Bytes
describe c = c.protocol ++ (codes " " ++ (c.ip ++ (codes ":" ++ to_string c.port)))

module _ (J : JsonLib) where
  unfoldable pub set_local : Option Candidate → PeerRelay J → PeerRelay J
  unfolding describe
  set_local none r = r
  set_local (some c) r = record r {
    local_cand_address = describe c;
    local_cand_type = c.candidate_type;
  }

  unfoldable pub set_remote : Option Candidate → PeerRelay J → PeerRelay J
  unfolding describe
  set_remote none r = r
  set_remote (some c) r = record r {
    remote_cand_address = describe c;
    remote_cand_type = c.candidate_type;
  }

  abbrev use_pair : StatsReport → CandidatePair → Bytes → PeerRelay J → PeerRelay J
  use_pair report p [] r = r
  use_pair report p (c ∷ cs) r =
      set_remote (report.get p.remote_candidate_id) (set_local (report.get p.local_candidate_id) r)

  -- Without a report, or without a succeeded pair that has a local candidate, nothing changes.
  unfoldable pub on_stats_delivered : Option StatsReport → PeerRelay J → PeerRelay J
  unfolding succeeded set_local set_remote
  on_stats_delivered none r = r
  on_stats_delivered (some report) r = elim (succeeded report.pairs) [
    | none ↦ r
    | some p ↦ use_pair report p p.local_candidate_id r
  ]
