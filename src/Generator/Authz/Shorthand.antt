-- ===== src/Generator/Authz/Shorthand.antt =====
-- The policies generated from the ingress shorthand.
pub mod Bare
pub mod Laws
pub mod Loop
use bigbang_operator.Base.{
  ℕ, zero, suc, ◌+◌, ◌-◌, ◌%◌, ◌^◌, leb, ended, String, Bool, not, ◌&&◌, Option, none, some, List,
  [], ◌∷◌, ◌++◌, map, ◌==◌, if◌then◌else◌, Result, ok, ◌>>=◌, within,
}
use mathlib.Core.Option
use bigbang_operator.Base.Dict.{is_empty, sorted_entries}
use bigbang_operator.Base.Lists.{collect}
use bigbang_operator.Base.Text.{concat, itoa}
use bigbang_operator.Api.Common.{RawJson, Labels}
use bigbang_operator.Api.Istio.{Istio}
use bigbang_operator.Api.Netpol.{NetworkPolicies}
use bigbang_operator.Api.Package.{Package}
use bigbang_operator.Object.{Object, fresh, authorization_policy, allow, Source}
use bigbang_operator.Generator.Names.{prepend_name}
use bigbang_operator.Generator.Keys.Parse.{
  ParsedK8sRemote, ParsedLocalIngressKey, ParsedCidr, parse_ingress_remote_key,
  parse_ingress_local_key, parse_ingress_cidr_key,
}
use bigbang_operator.Generator.Values.{
  ShorthandSource, ShorthandTarget, ShorthandPeer, decode_source, merge_shorthand_metadata,
  apply_shorthand_metadata,
}
use bigbang_operator.Generator.Selectors.{name_label}
use bigbang_operator.Generator.Codec.{Codec}
use bigbang_operator.Generator.Netpol.Local.{
  ingress_prefix, ports_segment, port_suffix, cidr_segment,
}
use bigbang_operator.Generator.Authz.Gates.{authz_enabled, generate_from_netpol}

abbrev annotation : String → String
unfolding concat
annotation name = concat ("generated.authorization-policies.bigbang.dev/" ∷ name ∷ [])

-- `a <= b` of two ints, given by their 64-bit patterns.
abbrev pub int_le : ℕ → ℕ → Bool
int_le a b = leb ((a + 2 ^ 63) % 2 ^ 64) ((b + 2 ^ 63) % 2 ^ 64)

-- `for p := a; p <= b; p++ { out = append(out, p) }`, from `p` on; `none` is a loop that is not done
-- when the fuel is.
unfoldable pub ports_loop : ℕ → ℕ → ℕ → Option (List ℕ)
ports_loop zero p b = none
ports_loop (suc fuel) p b =
    let rest = ports_loop fuel ((p + 1) % 2 ^ 64) b in
    if int_le p b then Option.map (λ ps. p ∷ ps) rest else some []

-- The fuel of a range is one unit more than its ports.
abbrev listed_ports : List ℕ → Bool → Option (List ℕ)
unfolding ports_loop
listed_ports (a ∷ b ∷ []) has_range =
    if has_range then ports_loop (suc (b + 1 - a)) a b else some (a ∷ b ∷ [])
listed_ports ports has_range = some ports

-- `to.operation.ports` of a local key: a range is written out.
unfoldable pub operation_ports : ParsedLocalIngressKey → Result (Option (List String))
unfolding ports_loop itoa
operation_ports local =
    let written = ended (listed_ports local.ports local.has_port_range) >>= λ ports.
    ok (some (map itoa ports)) in
    if is_empty local.ports then ok none else written

unfoldable pub workload_selector : ParsedLocalIngressKey → ShorthandSource → Labels
workload_selector local source =
    if is_empty source.pod_selector then (name_label, local.pod) ∷ [] else source.pod_selector

unfoldable pub build_authz_from_cidr :
    Package → Bool → ParsedLocalIngressKey → ShorthandSource → String → ParsedCidr → Result Object
unfolding prepend_name concat ingress_prefix ports_segment cidr_segment workload_selector
    operation_ports
build_authz_from_cidr pkg prepend local source cidr_key cidr = operation_ports local >>= λ to. ok (
    fresh
      (prepend_name prepend pkg.name
        (concat (ingress_prefix local ∷ ports_segment local ∷ cidr_segment "-from" cidr.cidr ∷ [])))
      [] ((annotation "from-cidr", cidr_key) ∷ (annotation "cidr", cidr.cidr) ∷ [])
      (authorization_policy (
        allow (some (workload_selector local source)) (
          record {
            from = record { namespaces = []; principals = []; ip_blocks = cidr.cidr ∷ [] };
            to = to;
          }
          ∷ []))))

-- The end of the name and the annotations: by identity, for any namespace, or by namespace.
source_name : String → ParsedK8sRemote → String × Labels
unfolding concat
source_name remote_key remote =
    if not (remote.identity == "")
    then (
      concat ("-from-ns-" ∷ remote.namespace ∷ "-with-identity-" ∷ remote.identity ∷ []),
      (annotation "from-spiffe", remote_key) ∷ (annotation "identity", remote.identity) ∷ [],
    )
    else if remote.namespace == "*"
    then ("-from-ns-any", (annotation "from-namespace", remote_key) ∷ [])
    else (
      concat ("-from-ns-" ∷ remote.namespace ∷ []),
      (annotation "from-namespace", remote_key)
          ∷ (if remote.pod == "" then [] else (annotation "pod", remote.pod) ∷ []),
    )

unfoldable pub spiffe : String → String → String
unfolding concat
spiffe namespace account = concat ("cluster.local/ns/" ∷ namespace ∷ "/sa/" ∷ account ∷ [])

unfoldable pub source_of : ParsedK8sRemote → Source
unfolding spiffe
source_of remote =
    if not (remote.identity == "")
    then record {
      namespaces = [];
      principals = spiffe remote.namespace remote.identity ∷ [];
      ip_blocks = [];
    }
    else record { namespaces = remote.namespace ∷ []; principals = []; ip_blocks = [] }

unfoldable pub build_authz_from_shorthand :
    Package
    → Bool
    → ParsedLocalIngressKey
    → ShorthandSource
    → String
    → ParsedK8sRemote
    → Result Object
unfolding prepend_name concat ingress_prefix port_suffix source_name source_of workload_selector
    operation_ports
build_authz_from_shorthand pkg prepend local source remote_key remote =
    let (name, annotations) = source_name remote_key remote in
    operation_ports local >>= λ to. ok (
      fresh
        (prepend_name prepend pkg.name (
          concat (
            ingress_prefix local
            ∷ port_suffix local.protocol local.ports local.has_port_range
            ∷ name
            ∷ [])))
        [] annotations
        (authorization_policy (
          allow (some (workload_selector local source))
            (record { from = source_of remote; to = to } ∷ []))))

module _ (pkg : Package) (prepend : Bool) (local_key : String) (local : ShorthandSource) where
  -- One round of each of the two inner loops.
  unfoldable pub authz_k8s : ParsedLocalIngressKey → String × ShorthandTarget → Result (List Object)
  unfolding parse_ingress_remote_key build_authz_from_shorthand apply_shorthand_metadata
      merge_shorthand_metadata
  authz_k8s parsed (remote_key, target) =
      let built =
        within "authz ingress.to.%s.from.k8s: %w" (local_key ∷ [])
          (parse_ingress_remote_key remote_key)
        >>= λ remote.
            build_authz_from_shorthand pkg prepend parsed local remote_key remote >>= λ policy. ok (
              apply_shorthand_metadata policy
                (merge_shorthand_metadata local.metadata target.metadata)
              ∷ []) in
      if target.enabled then built else ok []

  unfoldable pub authz_cidr :
      ParsedLocalIngressKey → String × ShorthandTarget → Result (List Object)
  unfolding parse_ingress_cidr_key build_authz_from_cidr apply_shorthand_metadata
      merge_shorthand_metadata
  authz_cidr parsed (cidr_key, target) =
      let built =
        within "authz ingress.to.%s.from.cidr: %w" (local_key ∷ [])
          (parse_ingress_cidr_key cidr_key)
        >>= λ cidr. build_authz_from_cidr pkg prepend parsed local cidr_key cidr >>= λ policy. ok (
            apply_shorthand_metadata policy
              (merge_shorthand_metadata local.metadata target.metadata)
            ∷ []) in
      if target.enabled then built else ok []

  authz_peer : Option ShorthandPeer → Result (List Object)
  unfolding parse_ingress_local_key collect sorted_entries authz_k8s authz_cidr
  authz_peer none = ok []
  authz_peer (some from) = do
    parsed ← within "authz ingress.to: %w" [] (parse_ingress_local_key local_key)
    k8s ← collect (authz_k8s parsed) (sorted_entries from.k8s)
    cidrs ← collect (authz_cidr parsed) (sorted_entries from.cidr)
    ok (k8s ++ cidrs)

module _ (codec : Codec) (pkg : Package) (spec : NetworkPolicies) where
  authz_local : String × RawJson → Result (List Object)
  unfolding authz_peer decode_source
  authz_local (local_key, raw) = do
    source ← within "authz from ingress.to.%s: %w" (local_key ∷ []) (codec.source raw)
    let local = decode_source source
    authz_peer pkg spec.prepend_release_name local_key local local.from

  unfoldable pub generate_authz_from_ingress_shorthand : Option Istio → Result (List Object)
  unfolding authz_enabled generate_from_netpol collect sorted_entries authz_local
  generate_authz_from_ingress_shorthand istio =
      let generated : Result (List Object) = elim (spec.ingress) [
        | none ↦ ok []
        | some ingress ↦ collect authz_local (sorted_entries ingress.to)
      ] in
      if authz_enabled istio && generate_from_netpol istio then generated else ok []
