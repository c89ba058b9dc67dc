-- ===== src/HttpCache/Memory/History.antt =====
-- Any sequence of operations on a cache, as the threads of the server make them one after the other.
use http.Prelude.{ℕ, ◌^◌, ◌<◌, List, [], ◌∷◌, arith, refl, foldl}
use http.Std.Text.{Text}
use http.Std.Map.{lookup}
use http.HttpCache.{CachedEntry, CacheKey}
use http.HttpCache.Memory.{lookup, MemoryCacheLru, new_cache, get, set, del, purge_prefix}
use http.HttpCache.Memory.Operations.{IsWf, get-IsWf, set-IsWf, del-IsWf}
use http.HttpCache.Memory.Contents.{purge_prefix-IsWf}

pub data Command : Type 0 where
  get_key : CacheKey → Command
  set_key : CacheKey → CachedEntry → Command
  del_key : CacheKey → Command
  purge : Text → Command

abbrev pub run : MemoryCacheLru → Command → MemoryCacheLru
run c (get_key k) = (get k c).1
run c (set_key k e) = set k e c
run c (del_key k) = del k c
run c (purge prefix) = purge_prefix prefix c

new_cache-IsWf : (size : ℕ) → size < 2 ^ 63 → IsWf (new_cache size)
new_cache-IsWf size l = record {
  coherent = record {
    apart = tt;
    below = tt;
    index = λ k. unfold lookup in refl;
    used = refl;
    fits = omega arith;
  };
  within = omega arith;
  cap = l;
}

run-IsWf : (c : MemoryCacheLru) (command : Command) → IsWf c → IsWf (run c command)
run-IsWf c (get_key k) h = get-IsWf k c h
run-IsWf c (set_key k e) h = set-IsWf k e c h
run-IsWf c (del_key k) h = del-IsWf k c h
run-IsWf c (purge prefix) h = purge_prefix-IsWf prefix c h

runs-IsWf : (commands : List Command) (c : MemoryCacheLru) → IsWf c → IsWf (foldl run c commands)
runs-IsWf [] c h = h
runs-IsWf (x ∷ xs) c h = runs-IsWf xs (run c x) (run-IsWf c x h)

-- Whatever operations are made on a new cache of less than 2 ^ 63 bytes, in whatever order: its list
-- and its map agree, its counter is the size of its entries, and that is at most its capacity.
pub history-IsWf :
    (size : ℕ) (commands : List Command)
    → size < 2 ^ 63
    → IsWf (foldl run (new_cache size) commands)
history-IsWf size commands l = runs-IsWf commands (new_cache size) (new_cache-IsWf size l)
