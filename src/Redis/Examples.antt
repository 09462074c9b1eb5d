-- ===== src/Redis/Examples.antt =====
-- A client that is made.
use nestplatform.Base.{◌≡◌, refl, none, some, true, [], ◌∷◌}
use nestplatform.Redis.{RedisConfig, standalone, redis, connect, error, create_redis_client}

abbrev local : RedisConfig
local = standalone (record { host = none; port = none; db = some "2"; credentials = 0 })

local_client :
    create_redis_client (λ s. 2) local true
    ≡ redis "127.0.0.1" 6379 (some 2) 0 (connect ∷ error ∷ [])
unfolding create_redis_client
local_client = refl
