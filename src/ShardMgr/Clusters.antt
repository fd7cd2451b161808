-- ===== src/ShardMgr/Clusters.antt =====
-- The shards of a cluster, `start` and `get_shard` of include/aegis/shards/impl/shard_mgr.cpp.
use native.Mathlib.Nat.{mul-add-mod_self_right, mod-eq_of_lt}
use aegis_cpp.Common.{
  ℕ, suc, zero, ◌+◌, ◌*◌, ◌%◌, ◌<◌, ◌==◌, ◌≡◌, sym, ap, ◌≢◌, subst, ◌∙◌, leb, true, false, List, [],
  ◌∷◌, ◌++◌, Option, none, some, if◌then◌else◌, length, length-append, get_elem?, arith, Bool-cases,
  inl, inr, ◌⊎◌,
}
use aegis_cpp.Shard.{Shard, new_shard}
use aegis_cpp.ShardMgr.{
  ShardMgr, belongs, add_shard, add_shards, get_shard, start, is_empty, running,
}
use aegis_cpp.Common.Map.{AllOption}

-- The place i of the shards of a cluster has the identifier i * clusters + cluster.
abbrev pub Numbered : ℕ → ℕ → List Shard → ℕ → Type 0
Numbered clusters cluster [] i = Unit
Numbered clusters cluster (s ∷ ss) i =
    (s.id ≡ i * clusters + cluster) × Numbered clusters cluster ss (suc i)

Numbered-snoc :
    (clusters cluster i k : ℕ) (ss : List Shard)
    → k ≡ (i + length ss) * clusters + cluster
    → Numbered clusters cluster ss i
    → Numbered clusters cluster (ss ++ new_shard k ∷ []) i
Numbered-snoc c d i k [] e h = (rw e (omega arith), tt)
Numbered-snoc c d i k (s ∷ ss) e h =
    (h.0, Numbered-snoc c d (suc i) k ss (e ∙ ap (λ x. x * c + d) (omega arith)) h.1)

-- The loop at k = q * clusters + r, behind q rounds over all clusters and r steps of the next.
record Round (k : ℕ) (m : ShardMgr) : Type 0 where
  q : ℕ
  r : ℕ
  parts : k ≡ q * m.max_clusters + r
  in_round : r < m.max_clusters
  is_cluster : m.cluster_id < m.max_clusters
  counted : length m.shards ≡ (if leb r m.cluster_id then q else suc q)
  numbered : Numbered m.max_clusters m.cluster_id m.shards 0

belongs_iff :
    (k : ℕ) (m : ShardMgr) (o : Round k m)
    → belongs m.max_clusters m.cluster_id k ≡ (o.r == m.cluster_id)
belongs_iff k m o = rw rest (ground (arith, o.in_round))
  where
    rest : k % m.max_clusters ≡ o.r
    rest = rw o.parts (mul-add-mod_self_right o.q m.max_clusters o.r ∙ mod-eq_of_lt o.in_round)

add_shard-Numbered :
    (k : ℕ) (m : ShardMgr) (o : Round k m)
    → o.r ≡ m.cluster_id
    → Numbered m.max_clusters m.cluster_id (add_shard k m).shards 0
add_shard-Numbered k m o g =
    Numbered-snoc m.max_clusters m.cluster_id 0 k m.shards
      (owned (length m.shards) (ground (arith, g, o.counted))) o.numbered
  where
    owned : (x : ℕ) → x ≡ o.q → k ≡ (0 + x) * m.max_clusters + m.cluster_id
    owned x y = rw (y, o.parts, g) (omega arith)

suc_parts :
    (k : ℕ) (m : ShardMgr) (o : Round k m)
    → suc o.r ≡ m.max_clusters
    → suc k ≡ suc o.q * m.max_clusters + 0
suc_parts k m o b = omega (arith, o.parts, b)

length_added :
    (k : ℕ) (m : ShardMgr) → length (m.shards ++ new_shard k ∷ []) ≡ suc (length m.shards)
length_added k m = omega (arith, length-append m.shards (new_shard k ∷ []))

add_shard-Round :
    (k : ℕ) (m : ShardMgr) (o : Round k m) → o.r ≡ m.cluster_id → Round (suc k) (add_shard k m)
add_shard-Round k m o g = elim (Bool-cases (suc o.r == m.max_clusters)) [
  | inl b ↦ record {
    q = suc o.q;
    r = 0;
    parts = suc_parts k m o (ground (arith, b));
    in_round = omega (arith, o.in_round);
    is_cluster = o.is_cluster;
    counted = ground (arith, length_added k m, o.counted, g);
    numbered = add_shard-Numbered k m o g;
  }
  | inr b ↦ record {
    q = o.q;
    r = suc o.r;
    parts = omega (arith, o.parts);
    in_round = ground (arith, b, o.in_round);
    is_cluster = o.is_cluster;
    counted = ground (arith, length_added k m, o.counted, g);
    numbered = add_shard-Numbered k m o g;
  }
]

skip-Round : (k : ℕ) (m : ShardMgr) (o : Round k m) → o.r ≢ m.cluster_id → Round (suc k) m
skip-Round k m o g = elim (Bool-cases (suc o.r == m.max_clusters)) [
  | inl b ↦ record {
    q = suc o.q;
    r = 0;
    parts = suc_parts k m o (ground (arith, b));
    in_round = omega (arith, o.in_round);
    is_cluster = o.is_cluster;
    counted = ground (arith, o.counted, g, b, o.is_cluster);
    numbered = o.numbered;
  }
  | inr b ↦ record {
    q = o.q;
    r = suc o.r;
    parts = omega (arith, o.parts);
    in_round = ground (arith, b, o.in_round);
    is_cluster = o.is_cluster;
    counted = ground (arith, o.counted, g);
    numbered = o.numbered;
  }
]

add_shards-Numbered :
    (n k : ℕ) (m : ShardMgr)
    → Round k m
    → Numbered m.max_clusters m.cluster_id (add_shards n k m).shards 0
unfolding add_shards
add_shards-Numbered zero k m o = o.numbered
add_shards-Numbered (suc n) k m o = elim (Bool-cases (belongs m.max_clusters m.cluster_id k)) [
  | inl b ↦
      subst
        (λ x.
          Numbered m.max_clusters m.cluster_id
            (add_shards n (suc k) (if x then add_shard k m else m)).shards 0)
        (sym b)
        (add_shards-Numbered n (suc k) (add_shard k m)
          (add_shard-Round k m o (ground (arith, rw (belongs_iff k m o) at b))))
  | inr b ↦
      subst
        (λ x.
          Numbered m.max_clusters m.cluster_id
            (add_shards n (suc k) (if x then add_shard k m else m)).shards 0)
        (sym b)
        (add_shards-Numbered n (suc k) m
          (skip-Round k m o (ground (arith, rw (belongs_iff k m o) at b))))
]

Numbered-get :
    (c d i p : ℕ) (ss : List Shard)
    → Numbered c d ss i
    → AllOption (λ s. s.id ≡ (i + p) * c + d) (get_elem? ss p)
Numbered-get c d i p [] h = tt
Numbered-get c d i zero (s ∷ ss) h = h.0 ∙ ap (λ x. x * c + d) (omega arith)
Numbered-get c d i (suc p) (s ∷ ss) h =
    subst (λ x. AllOption (λ s'. s'.id ≡ x * c + d) (get_elem? ss p)) (omega arith)
      (Numbered-get c d (suc i) p ss h.1)

-- What `get_shard` gives of a manager that may have failed to start.
abbrev pub get_started : ℕ → Option ShardMgr → Option Shard
get_started p none = none
get_started p (some m) = get_shard p m

-- In a cluster, below the number of clusters, of a bot that starts without shards, what `get_shard`
-- returns for p, if it returns a shard, is the one with the identifier p * max_clusters + cluster_id.
pub get_shard-start :
    (m : ShardMgr) (p : ℕ)
    → m.shards ≡ []
    → m.cluster_id < m.max_clusters
    → AllOption (λ s. s.id ≡ p * m.max_clusters + m.cluster_id) (get_started p (start m))
unfolding get_shard start
get_shard-start m p e h = elim (Bool-cases (is_empty m.gateway_url)) [
  | inl b ↦ rw b tt
  | inr b ↦ rw b (in_range (Bool-cases (leb (length started) p)))
]
  where
    started : List Shard
    started = (add_shards m.shard_max_count 0 (record m { state = running })).shards

    ready : Round 0 (record m { state = running })
    ready = record {
      q = 0;
      r = 0;
      parts = omega arith;
      in_round = omega (arith, h);
      is_cluster = h;
      counted = rw e (ground arith);
      numbered = rw e tt;
    }

    zero_add : (x : ℕ) → 0 + x ≡ x
    zero_add x = omega arith

    in_range :
        (leb (length started) p ≡ true) ⊎ (leb (length started) p ≡ false)
        → AllOption
            (λ s. s.id ≡ p * m.max_clusters + m.cluster_id)
            (if leb (length started) p then none else get_elem? started p)
    in_range (inl f) = rw f tt
    in_range (inr f) = rw f (
        subst (λ x. AllOption (λ s. s.id ≡ x * m.max_clusters + m.cluster_id) (get_elem? started p))
          (zero_add p)
          (Numbered-get m.max_clusters m.cluster_id 0 p started
            (add_shards-Numbered m.shard_max_count 0 (record m { state = running }) ready)))
