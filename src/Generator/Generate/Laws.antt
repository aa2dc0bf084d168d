-- ===== src/Generator/Generate/Laws.antt =====
-- What holds of every object that `Generate` of pkg/generator/generator.go returns.
use bigbang_operator.Base.{
  Option, none, some, List, [], ◌∷◌, message, Result, ok, err, ◌>>=◌, within, ◌≡◌, subst, sym,
}
use bigbang_operator.Base.Lists.{All, OnOk, OnOk-bind, OnOk_use}
use bigbang_operator.Api.Package.{Package}
use bigbang_operator.Object.{Object, kind_of, Gvk}
use bigbang_operator.Generator.Codec.{Codec}
use bigbang_operator.Generator.Input.{Input, Kube, Scheme}
use bigbang_operator.Generator.Metadata.{stamp_metadata}
use bigbang_operator.Generator.Generate.{set_gvk, finish, unstamped, generate}

set_gvk-OnOk :
    (P : Object → Type 0) (scheme : Scheme) (o : Object)
    → ((gvk : Gvk) → P (record o { gvk = gvk }))
    → OnOk P (set_gvk scheme o)
unfolding set_gvk
set_gvk-OnOk P scheme o h =
    OnOk-bind P (within "gvk for %T: %w" [] (scheme (kind_of o.spec))) _ λ gvks e. go gvks
  where
    go :
        (gvks : List Gvk)
        → OnOk P (elim gvks [
          | [] ↦ err (message "no GVK for %T" [])
          | ◌∷◌ gvk more ↦ ok (record o { gvk = gvk })
        ])
    go [] = tt
    go (gvk ∷ more) = h gvk

-- The last loop: what stamped objects have whatever their type, if the objects before have `Q`.
module _ (pkg : Package) (Q P : Object → Type 0)
    (step : (o : Object) (gvk : Gvk) → Q o → P (record (stamp_metadata pkg o) { gvk = gvk })) where
  finish-All :
      (scheme : Scheme) (objs : List Object) → All Q objs → OnOk (All P) (finish pkg scheme objs)
  unfolding finish
  finish-All scheme [] h = tt
  finish-All scheme (o ∷ objs) (q, h) =
      OnOk-bind (All P) (set_gvk scheme (stamp_metadata pkg o)) _ λ done e.
        OnOk-bind (All P) (finish pkg scheme objs) _ λ rest e'. (
          OnOk_use P (set_gvk scheme (stamp_metadata pkg o)) done
              (set_gvk-OnOk P scheme (stamp_metadata pkg o) (λ gvk. step o gvk q)) e,
          OnOk_use (All P) (finish pkg scheme objs) rest (finish-All scheme objs h) e',
        )

  -- What every generated object has, if what is unstamped has `Q`.
  pub generate-All :
      (codec : Codec) (kube : Kube) (input : Input) (objs : List Object)
      → OnOk (All Q) (unstamped codec kube pkg input)
      → input.pkg ≡ some pkg
      → generate codec kube input ≡ ok objs
      → All P objs
  unfolding generate
  generate-All codec kube input objs before e done =
      OnOk_use (All P) (generate codec kube input) objs
        (subst (λ p. OnOk (All P) (of_package p)) (sym e) (of_scheme input.scheme)) done
    where
      scheme_part : Package → Option Scheme → Result (List Object)
      scheme_part q none = err (message "generator: Scheme is nil" [])
      scheme_part q (some scheme) = unstamped codec kube q input >>= λ out. finish q scheme out

      of_package : Option Package → Result (List Object)
      of_package none = err (message "generator: Package is nil" [])
      of_package (some q) = scheme_part q input.scheme

      of_scheme : (s : Option Scheme) → OnOk (All P) (scheme_part pkg s)
      of_scheme none = tt
      of_scheme (some scheme) = OnOk-bind (All P) (unstamped codec kube pkg input) _ λ out h.
          finish-All scheme out (OnOk_use (All Q) (unstamped codec kube pkg input) out before h)
