-- ===== src/Examples/Threads.antt =====
-- policy/cache.py under threads: a read of one tenant that is under way when its state changes.
use bedrock_gateway_platform.Base.{◌≡◌, refl, some, List, [], ◌∷◌, ok, arith, string_eq, nat_eq}
use bedrock_gateway_platform.Dict
use bedrock_gateway_platform.Policy.Models.{active, suspended}
use bedrock_gateway_platform.Policy.Store
use bedrock_gateway_platform.Policy.Snapshots.{get, probe}
use bedrock_gateway_platform.Policy.Snapshots.Threads.{
  Threads, Move, start, ask, finish, change, push, fetched, move, moves,
}
use bedrock_gateway_platform.Policy.Snapshots.Threads.Bounds.{staleness_bounded_threads}
use bedrock_gateway_platform.Policy.Snapshots.Threads.LateFill.{late_fill}
use bedrock_gateway_platform.Examples.Policy.{policy_of, new_plane}

abbrev idle : Threads
idle = record { plane = new_plane; readers = [] }

abbrev two_reads : List Move
two_reads = start 0 "acme" 1 ∷ ask 0 ∷ start 1 "globex" 2 ∷ ask 1 ∷ []

abbrev ends : List Move
ends = push "acme" ∷ finish 0 4 ∷ change "globex" suspended ∷ finish 1 5 ∷ []

staleness_bounded_threads_example :
    let b = moves idle two_reads in
    let a = moves (move b (change "acme" suspended)) ends in
    (get 15 16 a.plane.store a.plane.cache "acme").0
    ≡ (Store.set_state b.plane.store "acme" suspended).0
staleness_bounded_threads_example =
    staleness_bounded_threads 5 "acme" idle two_reads ends suspended 15 16 refl tt (refl, tt)
      ((λ h. omega arith), ((λ h. omega arith), tt)) (omega arith)

under_way :
    Dict.get 0 (moves idle two_reads).readers ≡ some (fetched "acme" (ok (policy_of "acme" active)))
unfolding moves move probe Store.get Dict.get Dict.put
under_way = refl

late_fill_example :
    let w = moves idle two_reads in
    let a = moves w (change "acme" suspended ∷ push "acme" ∷ finish 0 1000 ∷ []) in
    (get 1005 1006 a.plane.store a.plane.cache "acme").0 ≡ ok (policy_of "acme" active)
unfolding moves move Dict.get probe Dict.put
late_fill_example =
    late_fill (moves idle two_reads) 0 "acme" (policy_of "acme" active) suspended 1000 1005 1006
      under_way (omega arith)
