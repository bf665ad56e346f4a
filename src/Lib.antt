-- ===== src/Lib.antt =====
-- The core of network-config-analyzer: the connectivity algebra, that is, the sets of values of one
-- dimension and the sets of n-dimensional cubes by which the analyzer represents connections, and what
-- network policies, layers and configurations allow.
--
-- The parts and how they interact.
--   A CanonicalIntervalSet (nca/CoreDS/CanonicalIntervalSet.py) holds the values of one dimension,
--   such as ports or protocols, as a sorted list of intervals. A CanonicalHyperCubeSet
--   (nca/CoreDS/CanonicalHyperCubeSet.py) maps such values of its first active dimension to hyper-cube
--   sets over the remaining ones. It asks of the values only the operations of HyperCubes/Elem.antt,
--   which CanonicalIntervalSet provides (HyperCubes/IntervalElem.antt). A MinDFA would be another
--   instance; it rests on the third-party library greenery and is not modelled.
--   A policy (nca/Resources/PolicyResources) caches the properties of its rules and returns what it
--   allows, denies and passes, and the peers that it captures. A layer (nca/NetworkConfig/NetworkLayer.py)
--   collects the policies of its kind in their order, and a configuration
--   (nca/NetworkConfig/NetworkConfig.py) combines its layers. These parts ask of PeerSet and
--   ConnectivityProperties only the operations of Policies/Connectivity.antt and their laws.
--
-- The files.
--   Prelude.antt and its children: shared names, Boolean tests, lists indexed as in Python, and
--     Outcome, the result of a call that may raise.
--   Intervals/Interval.antt: the class Interval. `self & other`, `self | other` and `self - other` are
--     meet, join and minus.
--   Intervals/Canonical.antt: the class invariant (Chain, IsCanonical) and the points of a set
--     (covers).
--   Intervals/Search.antt: find_interval_left and find_interval_right.
--   Intervals/Add.antt: add_interval, get_interval_set, `|=`, `|`, copy.
--   Intervals/Sets.antt: add_hole, `-=`, `-`, `&`, contained_in, `in`, overlaps, `==`, `<`, rep, and
--     the queries for a single value.
--   HyperCubes/Layers.antt: the objects as trees (Sub, Layers), the dict `layers`, `==`.
--   HyperCubes/Points.antt: the points of an object (sat), and what makes it well-formed:
--     its keys are valid, not empty and disjoint, and its sub-cubes well-formed (IsWell, AreWell). That no two pairs have the same sub-cube is IsMerged of
--     HyperCubes/Union/Merged.antt, and that no active dimension could be left out is IsMinimal of
--     HyperCubes/Reduce/Result.antt.
--   HyperCubes/Union.antt: _apply_layer_elements_union.
--   HyperCubes/Combine.antt: _and_aux, or_aux, sub_aux with their loops.
--   HyperCubes/Dimensions.antt: build_new_active_dimensions, _create_from_cube_aux and the helpers on
--     lists of dimensions.
--   HyperCubes/Operators.antt: is_all, set_all, clear, _set_active_dimensions,
--     _prepare_common_active_dimensions.
--   HyperCubes/Reduce.antt: reduce_active_dimensions, _set_inactive_dimensions,
--     _remove_some_active_dimensions, _get_values_sets_per_active_dimension.
--   HyperCubes/InPlace.antt: __iand__, __ior__, __isub__. The operators &, | and - apply them to a copy.
--   HyperCubes/SingleCube.antt: _reduce_cube, create_from_cube, add_cube, add_hole.
--   Policies/Connectivity.antt: the operations on peer sets and properties, and their laws.
--   Policies/Policy.antt: the class NetworkPolicy, PolicyConnections and its filter. Policy/Verdict.antt
--     is what a policy can say of a connection, Policy/Cache.antt the cache of its properties.
--   Policies/Calico.antt, K8s.antt, Istio.antt, Gateway.antt, Sidecar.antt: the classes of policies, and
--     Policies/Rules.antt the rules and loops that they share.
--   Policies/NetPolicy.antt: a policy of any class, get_order and `<`. Policies/Equality.antt: `==`.
--   Policies/Types.antt: the type of a resource, get_policy_type_from_dict.
--   Policies/Order.antt: insort of Python's library.
--   Networks/Layer.antt: NetworkLayer and its derived classes; its children K8s.antt, Istio.antt and
--     Mesh.antt are about what a layer allows by default, Collect.antt, Directions.antt and Authorization.antt about
--     all policies together, Order.antt about their order.
--   Networks/Container.antt: NetworkLayersContainer and PoliciesContainer.
--   Networks/Config.antt: NetworkConfig; Config/Connections.antt is its allowed_connections,
--     Config/Clone.antt is about its clone without one policy.
--   Values.antt: ProtocolSet with ProtocolNameResolver (nca/CoreDS/ProtocolSet.py and
--     ProtocolNameResolver.py), MethodSet (nca/CoreDS/MethodSet.py), PortSet (nca/CoreDS/PortSet.py).
--   Examples.antt and its children: tests, and each theorem with hypotheses at a concrete input.
--   The children of a module hold its proofs.
--
-- Conventions, bounds and fuel.
--   Points are natural numbers, since ports, protocols, methods, peer indexes and addresses are never
--   negative. Where the source subtracts 1 from a start, the result is compared by `<` or `>=` with the
--   end of an interval, which comes out the same at 0, or the start is known to be positive.
--   The -1 that a search returns is `none`. An index out of range is an outcome, index_error.
--   The two search loops run on fuel, one more than the length of the list. Each round but the last
--   shortens the range, and the theorems on the searches say that a result comes out.
--   _remove_some_active_dimensions runs on the number of active dimensions as fuel: each call has one
--   less.
--   Objects are immutable values: `self op= other` returns the new object, and copy() of an object is
--   the object. The intervals of one set may be shared with another in Python, and no code changes an
--   interval once it is made.
--   The dimensions' domains, which Python asks of the DimensionsManager singleton, are a parameter of
--   the functions that use them. All objects that an operation combines have one
--   `all_dimensions_list`.
--   Peer sets and properties are values, too: copy() of them is the same value, and the methods of a
--   policy return the policy with its cache beside their result. A verdict speaks of one connection at
--   a time; connections and peers are abstract, with the ends of a connection, whether it is TCP, and
--   whether a peer is a host endpoint or a DNS entry.
--   bisect_right runs on fuel, one more than the length of the list, which is enough to find the place.
--   What int() makes of a text, and whether re.match finds a method, are parameters.
--   The numbers that policies have as their order are a parameter with `<`, `==` and 1000.
--
-- Not modelled: texts and hashes of the objects, MinDFA, the implementation of peer sets and
--   connectivity properties over the hyper-cubes, messages of ExplTracker, queries, parsers, firewall
--   rules and output.
pub mod Prelude
pub mod HyperCubes
pub mod Intervals
pub mod Networks
pub mod Policies
pub mod Values
pub mod Examples
