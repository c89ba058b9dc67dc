-- ===== src/Shortener/Redis/Laws.antt =====
-- A store on a Redis server: what its operations do to the keys.
use http.Prelude.{
  list_beq, ℕ, ◌<◌, ◌≡◌, refl, ap, ◌∙◌, true, false, List, [], ◌∷◌, Option, none, some, is_some,
  if◌then◌else◌, same, same_iff, text_eq, arith,
}
use http.Std.Text.{Text, codes}
use http.Std.Number.{to_string, is_positive}
use http.Database.{bind_ok, ok, give}
use http.Shortener.Redis.{
  Reply, string, status, error, other, Hiredis, Link, cmd, get_context, run, run_again,
}
use http.Shortener.Redis.Store.{
  is_status_ok, string_of, full_key, expiry, redis_get, redis_set_nx, redis_set,
}

-- nil, or the value
abbrev pub reply_of : Option Text → Reply
reply_of none = other
reply_of (some v) = string v

-- What the documentation of Redis says of GET and SET, for a server that answers and has memory left,
-- where each key holds a text: `read` is the value of a key. EX takes a number of seconds that is not
-- 0, here one that an int holds. An option that is not known, as an empty one, is an error, and
-- nothing is set.
pub record ServerLaws {W : Type 0} (redis : Hiredis W) : Type 0 where
  pub read : Text → W → Option Text
  pub get_lem :
      (c : redis.Context) (k : Text) (w : W)
      → redis.command c (codes "GET" ∷ k ∷ []) w ≡ (some (reply_of (read k w)), w)
  pub set : Text → Text → W → W
  pub read-set :
      (k v j : Text) (w : W) → read j (set k v w) ≡ (if same k j then some v else read j w)
  pub set_lem :
      (c : redis.Context) (k v : Text) (n : ℕ) (w : W)
      → 0 < n
      → n < 2147483648
      → redis.command c (codes "SET" ∷ k ∷ v ∷ codes "EX" ∷ to_string n ∷ []) w
        ≡ (some (status (codes "OK")), set k v w)
  pub set_nx_lem :
      (c : redis.Context) (k v : Text) (n : ℕ) (w : W)
      → 0 < n
      → n < 2147483648
      → redis.command c (codes "SET" ∷ k ∷ v ∷ codes "NX" ∷ codes "EX" ∷ to_string n ∷ []) w
        ≡ (if is_some (read k w) then (some other, w) else (some (status (codes "OK")), set k v w))
  pub error_text : Text
  pub set_unknown :
      (c : redis.Context) (k v t : Text) (w : W)
      → redis.command c (codes "SET" ∷ k ∷ v ∷ [] ∷ t ∷ []) w ≡ (some (error error_text), w)
  pub set_nx_unknown :
      (c : redis.Context) (k v t : Text) (w : W)
      → redis.command c (codes "SET" ∷ k ∷ v ∷ codes "NX" ∷ [] ∷ t ∷ []) w
        ≡ (some (error error_text), w)

module _ {W : Type 0} (redis : Hiredis W) (laws : ServerLaws redis) (prefix : Text) where
  open redis use {Context}
  open laws use {read}

  -- A command on a connection that is there.
  cmd_answered :
      (args : List Text) (c : Context) (k : Link Context W) (r : Reply) (w : W)
      → k.client.context ≡ some c
      → redis.command c args k.world ≡ (some r, w)
      → cmd redis args k ≡ ok (some r) (record k { world = w })
  unfolding cmd get_context run run_again
  cmd_answered args c k r w e h = rw (e, get_context) (rw (h) refl)

  found : (o : Option Text) → string_of (some (reply_of o)) ≡ o
  found none = refl
  found (some v) = refl

  redis_get_lem :
      (key : Text) (c : Context) (k : Link Context W)
      → k.client.context ≡ some c
      → redis_get redis prefix key k ≡ ok (read (full_key prefix key) k.world) k
  unfolding redis_get
  redis_get_lem key c k e =
      bind_ok (cmd redis _) (λ r. give (string_of r))
        (cmd_answered _ c k _ k.world e (laws.get_lem c (full_key prefix key) k.world))
      ∙ ap (λ o. ok o k) (found (read (full_key prefix key) k.world))

  -- the link once the key reads as the value
  abbrev pub stored : Text → Text → Link Context W → Link Context W
  stored key value k = record k { world = laws.set (full_key prefix key) value k.world }

  set_nx_answered :
      (key value : Text) (ttl : ℕ) (c : Context) (k : Link Context W) (r : Reply) (w : W)
      → k.client.context ≡ some c
      → redis.command c
          (codes "SET" ∷ full_key prefix key ∷ value ∷ codes "NX" ∷ expiry ttl)
          k.world
        ≡ (some r, w)
      → redis_set_nx redis prefix key value ttl k
        ≡ ok (is_status_ok (some r)) (record k { world = w })
  unfolding redis_set_nx
  set_nx_answered key value ttl c k r w e h =
      bind_ok (cmd redis _) (λ r. give (is_status_ok r)) (cmd_answered _ c k r w e h)

  expiry_some :
      (ttl : ℕ) → 0 < ttl → ttl < 2147483648 → expiry ttl ≡ codes "EX" ∷ to_string ttl ∷ []
  expiry_some ttl p q = ground arith

  expiry_none : (ttl : ℕ) → is_positive ttl ≡ false → expiry ttl ≡ [] ∷ to_string 0 ∷ []
  expiry_none ttl h = rw h refl

  abbrev nx_result : Text → Text → W → Option Text → Option Reply × W
  nx_result key value w o =
      if is_some o
      then (some other, w)
      else (some (status (codes "OK")), laws.set (full_key prefix key) value w)

  nx_command :
      (key value : Text) (ttl : ℕ) (c : Context) (w : W)
      → 0 < ttl
      → ttl < 2147483648
      → redis.command c (codes "SET" ∷ full_key prefix key ∷ value ∷ codes "NX" ∷ expiry ttl) w
        ≡ nx_result key value w (read (full_key prefix key) w)
  nx_command key value ttl c w p q =
      ap (λ x. redis.command c (codes "SET" ∷ full_key prefix key ∷ value ∷ codes "NX" ∷ x) w)
        (expiry_some ttl p q)
      ∙ laws.set_nx_lem c (full_key prefix key) value ttl w p q

  -- On a connection that is there and answers, with a time to live above 0 that an int holds: setNX of
  -- a key that reads as nothing succeeds, after which the key reads as the value and every other key as before.
  pub redis_set_nx_new :
      (key value : Text) (ttl : ℕ) (c : Context) (k : Link Context W)
      → k.client.context ≡ some c
      → 0 < ttl
      → ttl < 2147483648
      → read (full_key prefix key) k.world ≡ none
      → (t : Link Context W) × (redis_set_nx redis prefix key value ttl k ≡ ok true t)
        × (redis_get redis prefix key t ≡ ok (some value) t)
        × ((j : Text)
            → same (full_key prefix key) (full_key prefix j) ≡ false
            → redis_get redis prefix j t ≡ ok (read (full_key prefix j) k.world) t)
  unfolding list_beq
  redis_set_nx_new key value ttl c k e p q n =
      let t = stored key value k in
      (
        t,
        set_nx_answered key value ttl c k (status (codes "OK")) t.world e
            (nx_command key value ttl c k.world p q ∙ ap (nx_result key value k.world) n),
        redis_get_lem key c t e
            ∙ ap (λ o. ok o t)
                (laws.read-set (full_key prefix key) value (full_key prefix key) k.world
                  ∙ (rw ((same_iff (full_key prefix key) (full_key prefix key)).1 refl) refl)),
        λ j d.
            redis_get_lem j c t e
            ∙ ap (λ o. ok o t)
                (laws.read-set (full_key prefix key) value (full_key prefix j) k.world
                  ∙ (rw d refl)),
      )

  -- setNX of a key that reads as a value fails and changes nothing.
  pub redis_set_nx_taken :
      (key value : Text) (ttl : ℕ) (c : Context) (k : Link Context W) (v : Text)
      → k.client.context ≡ some c
      → 0 < ttl
      → ttl < 2147483648
      → read (full_key prefix key) k.world ≡ some v
      → (redis_set_nx redis prefix key value ttl k ≡ ok false k)
        × (redis_get redis prefix key k ≡ ok (some v) k)
  redis_set_nx_taken key value ttl c k v e p q n = (
    set_nx_answered key value ttl c k other k.world e
        (nx_command key value ttl c k.world p q ∙ ap (nx_result key value k.world) n),
    redis_get_lem key c k e ∙ ap (λ o. ok o k) n,
  )

  -- With a time to live that is not above 0, as the default is, on a connection that is there and
  -- answers: the option of SET is empty, which the server does not know, so that setNX fails, and
  -- neither it nor set stores anything.
  pub redis_set_forever :
      (key value : Text) (ttl : ℕ) (c : Context) (k : Link Context W)
      → k.client.context ≡ some c
      → is_positive ttl ≡ false
      → (redis_set_nx redis prefix key value ttl k ≡ ok false k)
        × (redis_set redis prefix key value ttl k ≡ ok tt k)
  unfolding redis_set
  redis_set_forever key value ttl c k e h =
      let full = full_key prefix key in
      (
        set_nx_answered key value ttl c k (error laws.error_text) k.world e (
            ap (λ x. redis.command c (codes "SET" ∷ full ∷ value ∷ codes "NX" ∷ x) k.world)
              (expiry_none ttl h)
            ∙ laws.set_nx_unknown c full value (to_string 0) k.world),
        bind_ok (cmd redis _) (λ r. give tt)
            (cmd_answered _ c k (error laws.error_text) k.world e (
              ap (λ x. redis.command c (codes "SET" ∷ full ∷ value ∷ x) k.world) (expiry_none ttl h)
              ∙ laws.set_unknown c full value (to_string 0) k.world)),
      )
