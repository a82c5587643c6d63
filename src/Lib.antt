-- ===== src/Lib.antt =====
-- Tmap: the continuous IP discovery of the desktop app, apps/desktop/ippool, and the device graph and
-- the scan scope and the scores of the agent, agent/internal/topology, discovery, safety and scoring, in
-- Go.
--
-- The discovery. A `Manager` owns a pool of devices. From seeds it derives subnets, asks a scope guard
-- whether they may be probed, lists their hosts in an order of preference, and feeds the hosts one by
-- one to a bounded queue. A scheduler takes addresses from the queue and answers with outcomes; each
-- outcome moves a device through the statuses candidate, active, recently seen, stale and unreachable,
-- adds evidence to it, and is reported in events. Other parts of the app add observed evidence.
--
-- The device graph. Discovery hands the agent's builder devices, proven neighbours, route hops and
-- the peers of the subnet. The builder offers an edge for each to a graph, which takes edges between
-- two known devices, one for each identifier; the confidence of an edge stays within the band of its type.
-- The devices get roles, the result says whether it rests on inference alone, and a report made of it
-- is validated: identifiers, references to evidence, ranges and counts.
--
-- The files of the discovery. Each name is relative to apps/desktop/ippool.
--   Ippool/Types         the records and enumerations of types.go
--   Ippool/Config        Config, DefaultConfig and normalized of types.go
--   Ippool/Guard         scope_guard.go: AllowIP is allow_ip, AllowCIDR is allow_cidr
--   Ippool/Candidates    candidate_generator.go: GenerateFromSeed is generate_from_seed and generate, its
--                        loops are ordered and emit; SubnetOf is subnet_of, ipLess is ip_less
--   Ippool/Evidence      mobile_fingerprint.go: what is stored of an item, and mergeEvidence
--   Ippool/Scorer        mobile_fingerprint.go: liveMobileScorer. Its state and how evidence is added stand
--                        there; Verdict has detectConflicts, classification and confidence
--   Ippool/Mobile        mobile_fingerprint.go: what a fingerprint changes in an entry
--   Ippool/Pool          device_pool.go: EnsureCandidate, RecordSuccess, RecordFailure and Get
--   Ippool/Registry      device_pool.go: AddEvidence, RefreshMobileFingerprints, Snapshot, IPsByStatus,
--                        Counts and ClearStale
--   Ippool/Manager       manager.go: the state, New and Snapshot; Handlers has the methods, Steps the
--                        goroutines and the runs
-- The files of the device graph. Each name is relative to agent/internal/topology.
--   Topology/Types       the contracts of agent/pkg/models/topology.go and rich_topology.go
--   Topology/Confidence  confidence.go: BaseConfidence, MaxConfidence, clampConfidence, ConfidenceLabel
--   Topology/Edge        edge.go: newEdge is new_edge, edgeID is edge_id
--   Topology/Evidence    evidence.go: EvidenceStore.Add is add_record, dedupSorted is dedup_sorted
--   Topology/Graph       graph.go: AddEdge is add_edge, Edges is sorted_edges
--   Topology/Builder     builder.go and classifier.go: Build is build, ClassifyRoles is classify_roles
--   Topology/Validate    validate.go: ValidateReport is validate_report, its loops are check_devices,
--                        check_records, check_registry, check_references, check_edges and check_v2
-- The scope of a scan. The agent scans only inside a scope that is parsed from a request or from the
-- network of an interface; it is refused where it is not private, unless the caller has allowed that, and
-- where it is too large. The files, relative to agent/internal:
--   Discovery/Scope      discovery/scope.go: ParseScope is parse_scope, HostsInScope is hosts_in_scope
--   Discovery/Policy     safety: the checks of targets and ranges, and the rate limiter
-- The scores. Rules that match what was seen of a connection add deltas to a board of scores, one for
-- each type of access, which is then put on a scale from 0 to 1. The files, relative to agent/internal:
--   Scoring/Rules        scoring/rules.go: Matches, anyContainsFold, anySliceContainsFold
--   Scoring/Board        scoring/score.go: Add is add, AddHints is add_hints, Normalize is normalize
--   Scoring/Matcher      detection/matcher.go: MatchFingerprint is match_fingerprint
--   Scoring/Engine       detection/engine.go: applyLatencySignal is apply_latency_signal, and the part of
--                        Analyze that fills the board is score_board
-- The files of all.
--   Net                  the addresses, networks and texts that Go's package net gives the above
--   Base                 shared helpers: lists, texts, maps, integers, float64, calls that may not return
--   Tests                concrete inputs
-- Under each of these stand the modules with what is proved of it.
--
-- The model. A method that holds one lock from end to end is one function from the state and the clock
-- to the new state and its results. The goroutines of the manager are actions: one tick, one message or
-- one call each, and a run is any sequence of them, so every order of whole handlers is covered, and
-- the orders in which parts of two handlers mix are not. The addresses that the scheduler holds are a field
-- of the manager's state. Events are kept in a log. A Go map is an association list. Addresses are
-- numbers, and `uint32` sums wrap. `float64` is a type with the operations that the code uses, as an
-- instance argument; nothing is assumed of it but what a theorem says, which for the graph is the order of
-- numbers that are not NaN (Ordered in Base/Float). A problem of a report is the format of its message
-- with the arguments. Case and white space of texts
-- are those of ASCII.
--
-- Fuel. GenerateFromSeed calls itself through boundedLargeSubnet; where it returns, it does so within two
-- calls if MaxAutoPrefix is at most 24. The manager gives it two; where that is not enough, and where
-- it panics, the action has no result. The text of an IPv6 network is an argument of parse_scope.
--
-- Not modelled. Of the scorer's rules only that for DNS categories is; the fingerprint that the pool
-- stores is a parameter. The ping program, the timers and the
-- rate limit of the scheduler, JSON, and the app's window are input and output. Of the agent only the
-- device graph, the scope and the scores are modelled: the merging of devices, the rest of detection, and
-- the reading of devices are planned or input and output, and topology/rich.go makes a view for the user interface.
pub mod Base
pub mod Net
pub mod Ippool
pub mod Scoring
pub mod Topology
pub mod Discovery
pub mod Tests
