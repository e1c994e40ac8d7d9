-- ===== src/DataPath/Server/Interleaving.antt =====
-- The invariant of the server, on every interleaving.
use flowweave.DataPath.{VpnDataPathHandle, quota_metrics, set_metrics, release_all_accounted}
use flowweave.DataPath.Server.Opening.{Serves, opened-Serves}
use flowweave.DataPath.Server.{
  Server, Event, opens, calls, drops, get, put, serve, serve_all, IsAllowed,
}
use flowweave.Prelude.{
  ℕ, ◌-◌, ◌≡◌, refl, sym, subst, inl, inr, arith, Option-cases, Option, none, some, List, [], ◌∷◌,
  All,
}
use flowweave.Quota.Budget.Holding.{Holds, release-Holds}
use flowweave.DataPath.Ingest.{drop_inner}
use flowweave.DataPath.Sound.{IsSound}
use flowweave.DataPath.Sound.Calls.Run.{Call, call, IsInput, EndsIn}
use flowweave.DataPath.Sound.Sequence.{call-EndsIn}
use flowweave.DataPath.Server.Shares.{
  total_bytes, total_packets, IsOwn, IsServer, terms_of, total_bytes-get, total_packets-get,
  All-get, All-put, All-remove,
}

-- One data path of the server, with the server's counters.
own-IsSound :
    (s : Server) (i : ℕ) (p : VpnDataPathHandle)
    → IsServer s
    → get i s.paths ≡ some p
    → IsSound (set_metrics p s.metrics) (terms_of s p)
own-IsSound s i p v e =
    let own = All-get (IsOwn s.budget) i p s.paths e v.own in
    let (b, _) = total_bytes-get i p p s.paths e in
    let (q, _) = total_packets-get i p p s.paths e in
    record {
      backed = record {
        kept = (own.budget, refl, refl);
        path = own.path;
        held =
            subst
              (λ x.
                Holds x s.metrics p.state.accounted_bytes p.state.accounted_packets
                  (total_bytes s.paths - p.state.accounted_bytes)
                  (total_packets s.paths - p.state.accounted_packets))
              (sym own.budget)
              (record {
                bytes_held = omega (arith, v.bytes_held, b);
                packets_held = omega (arith, v.packets_held, q);
                bytes_bound = v.bytes_bound;
                packets_bound = v.packets_bound;
                byte_limit = v.byte_limit;
                packet_limit = v.packet_limit;
              });
        bytes = own.bytes_accounted;
        packets = own.packets_accounted;
      };
      bytes = own.bytes;
      packets = own.packets;
    }

IsSound-IsOwn : (s : Server) (p h : VpnDataPathHandle) → IsSound h (terms_of s p) → IsOwn s.budget h
IsSound-IsOwn s p h w = record {
  budget = w.backed.kept.0;
  path = w.backed.path;
  bytes_accounted = w.backed.bytes;
  packets_accounted = w.backed.packets;
  bytes = w.bytes;
  packets = w.packets;
}

-- The data path after its call, and the server's counters.
back-IsServer :
    (s : Server) (i : ℕ) (p h : VpnDataPathHandle)
    → IsServer s
    → get i s.paths ≡ some p
    → IsSound h (terms_of s p)
    → IsServer (record s { metrics = quota_metrics h; paths = put i h s.paths })
back-IsServer s i p h v e w =
    let held =
      subst
        (λ x.
          Holds x (quota_metrics h) h.state.accounted_bytes h.state.accounted_packets
            (terms_of s p).other_bytes (terms_of s p).other_packets)
        w.backed.kept.0 w.backed.held in
    let (b, b') = total_bytes-get i p h s.paths e in
    let (q, q') = total_packets-get i p h s.paths e in
    record {
      bytes_held = omega (arith, held.bytes_held, b, b');
      packets_held = omega (arith, held.packets_held, q, q');
      bytes_bound = held.bytes_bound;
      packets_bound = held.packets_bound;
      byte_limit = v.byte_limit;
      packet_limit = v.packet_limit;
      own = All-put (IsOwn s.budget) i h s.paths (IsSound-IsOwn s p h w) v.own;
    }

called-Serves :
    (s : Server) (i : ℕ) (c : Call) → IsServer s → IsInput c → Serves (serve s (calls i c))
unfolding serve
called-Serves s i c v bs = elim (Option-cases (get i s.paths)) [
  | inl absent ↦ rw (serve, absent) v
  | inr (p, e) ↦
      rw (serve, e)
        (ended p e (call (set_metrics p s.metrics) c)
          (call-EndsIn (terms_of s p) (set_metrics p s.metrics) c (own-IsSound s i p v e) bs))
]
  where
    ended :
        (p : VpnDataPathHandle)
        → get i s.paths ≡ some p
        → (o : Option VpnDataPathHandle) → EndsIn (terms_of s p) o
        → Serves (elim o as (λ _. Option Server) [
          | none ↦ none
          | some h ↦ some (record s { metrics = quota_metrics h; paths = put i h s.paths })
        ])
    ended p e none x = x
    ended p e (some h) x = back-IsServer s i p h v e x

-- A dropped data path gives its share back.
dropped-Serves : (s : Server) (i : ℕ) → IsServer s → Serves (serve s (drops i))
unfolding serve drop_inner release_all_accounted
dropped-Serves s i v = elim (Option-cases (get i s.paths)) [
  | inl absent ↦ rw (serve, absent) v
  | inr (p, e) ↦
      let w = own-IsSound s i p v e in
      let (m, released, held) =
        release-Holds p.global_budget (terms_of s p).other_bytes (terms_of s p).other_packets
          s.metrics p.state.accounted_bytes p.state.accounted_packets p.state.accounted_bytes
          p.state.accounted_packets w.backed.held (omega arith) (omega arith) in
      let held' =
        subst
          (λ x.
            Holds x m (p.state.accounted_bytes - p.state.accounted_bytes)
              (p.state.accounted_packets - p.state.accounted_packets) (terms_of s p).other_bytes
              (terms_of s p).other_packets)
          w.backed.kept.0 held in
      let (b, _) = total_bytes-get i p p s.paths e in
      let (q, _) = total_packets-get i p p s.paths e in
      rw (serve, e, drop_inner, release_all_accounted, released)
        (record {
          bytes_held = omega (arith, held'.bytes_held, b);
          packets_held = omega (arith, held'.packets_held, q);
          bytes_bound = held'.bytes_bound;
          packets_bound = held'.packets_bound;
          byte_limit = v.byte_limit;
          packet_limit = v.packet_limit;
          own = All-remove (IsOwn s.budget) i s.paths v.own;
        })
]

serve-Serves : (s : Server) (e : Event) → IsServer s → IsAllowed e → Serves (serve s e)
serve-Serves s (opens data_policy limits packet_len generation limiter policy_metrics) v small =
    opened-Serves s data_policy limits packet_len generation limiter policy_metrics v small
serve-Serves s (calls i c) v bs = called-Serves s i c v bs
serve-Serves s (drops i) v bs = dropped-Serves s i v

-- From a server whose counters and data paths agree, data paths that share the budget, any number and
-- with limits inside the bounds of an identity, come, go and interleave their calls in any order,
-- whatever bytes the datagrams that come in hold: no call panics, the shared counters always stand at the
-- sums of what the data paths are accounted for and inside the limits of the budget, and each data
-- path holds no more than its account and the limits of its identity.
pub serve_all-Serves :
    (s : Server) (es : List Event) → IsServer s → All IsAllowed es → Serves (serve_all s es)
serve_all-Serves s [] v a = v
serve_all-Serves s (e ∷ es) v (x, a) =
    next (serve s e) (serve-Serves s e v x) (λ s' w. serve_all-Serves s' es w a)
  where
    next :
        (o : Option Server)
        → Serves o
        → ((s' : Server) → IsServer s' → Serves (serve_all s' es))
        → Serves (elim o as (λ _. Option Server) [ none ↦ none | some s' ↦ serve_all s' es ])
    next none w go = w
    next (some s') w go = go s' w
