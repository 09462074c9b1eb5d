-- ===== src/Redlock/Wiring/Starting.antt =====
-- The service that the module starts.
use nestplatform.Base.{
  ℕ, suc, ◌<◌, ◌≡◌, refl, ap, sym, ◌∙◌, String, none, Bool, false, List, [], ◌∷◌, ◌++◌,
  append_assoc, append-nil, contains, arith, if◌then◌else◌, All, All-append,
}
use nestplatform.Redis.{
  RedisConfig, standalone, cluster, RedisClient, ClientEvent, redis, redis_cluster,
  create_redis_client,
}
use nestplatform.Redlock.Wiring.{
  PartialConfig, redlock_config, RedisClients, configs, create_clients, redis_clients, client_set,
  with_clients, registered_service,
}

-- So many numbers, from one on.
abbrev pub count_from : ℕ → List RedisConfig → List ℕ
count_from next [] = []
count_from next (c ∷ cs) = next ∷ count_from (suc next) cs

absent : (n : ℕ) (ns : List ℕ) → All (λ m. m < n) ns → contains n ns ≡ false
absent n [] h = refl
absent n (m ∷ ns) h = ground (arith, absent n ns h.1)

All-later : (n : ℕ) (ns : List ℕ) → All (λ m. m < n) ns → All (λ m. m < suc n) ns
All-later n [] h = tt
All-later n (m ∷ ns) h = (omega arith, All-later n ns h.1)

module _ (number : String → ℕ) (logging : Bool) where
  set-create_clients :
      (next : ℕ) (cs : List RedisConfig) (seen : List ℕ)
      → All (λ m. m < next) seen
      → client_set seen (create_clients number next cs logging) ≡ seen ++ count_from next cs
  unfolding client_set create_clients
  set-create_clients next [] seen h = sym (append-nil seen)
  set-create_clients next (c ∷ cs) seen h =
      ap
        (λ b.
          client_set (if b then seen else seen ++ next ∷ [])
            (create_clients number (suc next) cs logging))
        (absent next seen h)
      ∙ (set-create_clients (suc next) cs (seen ++ next ∷ []) (
            All-append (λ m. m < suc next) seen (next ∷ []) (All-later next seen h)
              (omega arith, tt))
          ∙ append_assoc seen (next ∷ []) (count_from (suc next) cs))

-- The events of a client that something listens for.
abbrev pub events_of : RedisClient → List ClientEvent
events_of (redis host port db credentials events) = events
events_of (redis_cluster nodes options events) = events

module _ (number : String → ℕ) where
  created_silent : (c : RedisConfig) → events_of (create_redis_client number c false) ≡ []
  unfolding create_redis_client
  created_silent (standalone c) = refl
  created_silent (cluster nodes options) = refl

  create_clients-All_silent :
      (next : ℕ) (cs : List RedisConfig)
      → All (λ (p : ℕ × RedisClient). events_of p.1 ≡ []) (create_clients number next cs false)
  unfolding create_clients
  create_clients-All_silent next [] = tt
  create_clients-All_silent next (c ∷ cs) =
      (created_silent c, create_clients-All_silent (suc next) cs)

  -- The service that `register` starts has a client for every Redis configuration, all different,
  -- with the settings that are given and defaults for the others; without any configuration the
  -- constructor throws. Nothing listens to the events of its clients, whatever `logging` is in the
  -- configuration.
  pub registered_service_starts :
      (next : ℕ) (clients : RedisClients) (c : PartialConfig)
      → (registered_service number next clients c
          ≡ with_clients (count_from next (configs clients)) (redlock_config c))
        × All (λ (p : ℕ × RedisClient). events_of p.1 ≡ []) (redis_clients number next clients none)
  unfolding registered_service redis_clients
  registered_service_starts next clients c = (
    ap (λ ns. with_clients ns (redlock_config c))
        (set-create_clients number false next (configs clients) [] tt),
    create_clients-All_silent next (configs clients),
  )
