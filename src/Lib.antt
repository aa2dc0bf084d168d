-- ===== src/Lib.antt =====
-- The Big Bang operator: a controller that reconciles a `Package` resource into network policies,
-- Istio resources and routes. This library models its two parts and proves what they promise.
--
-- Parts and files
--
--   * Base: what all modules share. Go's `error` values are `Error`, a fallible call returns
--     `Result`; `Base.Text` has the functions of `strings` and `strconv` that the code calls,
--     `Base.Dict` Go's maps as association lists whose order stands for the order in which Go
--     happens to walk them (`sortedKeys` of pkg/generator/util.go), `Base.Lists` the loops that
--     append. `Regexp` has regular expressions with a matcher by derivatives, for the key patterns.
--   * Api: the types of api/v1alpha1. `Object`: the Kubernetes and Istio objects that are emitted.
--   * Generator: pkg/generator, a pure function from a Package to objects. `Names`, `Metadata` and
--     `Hbone` are names.go, metadata.go and hbone.go. `Keys` and `Values` are the keys and the values
--     of the shorthand (shorthand.go), with `Keys.Ports` and `Keys.Parse` for how ports and keys are
--     written. `Definitions` and `Resolve` are definitions.go. `Selectors`,
--     `Cidr` and `Netpol.All` are networkpolicies.go, `Netpol.Egress`, `Netpol.Ingress` and
--     `Netpol.Local` networkpolicies_shorthand.go, `Defaults` networkpolicies_defaults.go.
--     `IstioResources` is istio.go, `Inbound` ingressconfig.go and globalconfig.go, `RouteResources`
--     routes.go, `Authz` authorizationpolicies.go. `Generate` is generator.go, which composes them. `Made`
--     has the lemmas on the loops and calls of which the builders of objects are made, for any
--     predicate on objects, and `Bare` what the builders leave to the stamping.
--   * Controller: internal/controller. `Conditions` is status.go, `Prune` prune.go, `Cluster` what
--     the API server does for them, `Config` and `Reconcile` package_controller.go: the state is the
--     record `World` (objects of the cluster, status of the Package, metrics, events), and
--     `reconcile` maps the world and the answers of the reads to the world after the run and its
--     error. Every write can fail, by the fields of `Server`.
--     `Setup` is its SetupWithManager. `Steps` has the life of a Package as a step relation: runs on
--     the cached copy, edits, and changes of the cluster by others. `Ownership` joins what the
--     generator stamps to what the pruning looks for, `Reconcile.Stable` is about a second run.
--   * Setup: cmd/main.go. `Options` has the flags and what they set in the servers, the cache and the
--     manager, `Start` the calls of `init` and `main` and how the process ends.
--   * Tests: runs at concrete inputs.
--
-- Conventions and bounds
--
--   A pointer or a map that may be nil is an `Option` where nil is not the empty value. An int32 or
--   uint32 is its bit pattern (`% 2 ^ 32`). An `int` from a key is a natural number below 2 ^ 63, by
--   the bound that `atoi` checks, and no key pattern has a sign. `itoa n` runs on the fuel `suc n`,
--   and a number has at most that many digits. A port range is written out by
--   the loop on 64-bit ints, on one unit of fuel more than the range has ports. This is enough but
--   for a range up to the largest int, on which the code's loop never ends: such a call gives the
--   error `endless`, which stands for no error of the code, and a run that gets it is a failed one
--   in the model, where the code's run hangs.
--   Loops over slices and maps are recursion on the list. `sort.Slice` is an insertion sort.
--   A listed object carries its kind, as the client's cache fills it in. The pruning lists the live
--   objects: the cache, from which the code lists, is taken to be up to date.
--
-- Not modelled
--
--   encoding/json, sigs.k8s.io/yaml, the Kubernetes validators and the scheme are parameters (the
--   records `Codec` and `Kube`, and `Scheme`), and so is server-side apply (`Server.merge`). The body
--   of a spec that is decoded from raw JSON into an Istio type stays opaque (`Proto`). IPv6
--   exclusions never lie in a rule's network, which is IPv4 by its key. Left out are the registration
--   of metrics, the parsing of flags, the generated deep copies, logging, the CRDs, the chart and
--   the documentation.
pub mod Base
pub mod Regexp
pub mod Api
pub mod Object
pub mod Generator
pub mod Controller
pub mod Setup
pub mod Tests
