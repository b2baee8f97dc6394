-- ===== src/Cache/Routes/Laws.antt =====
-- What resolving a path guarantees: the parts of the path below a route's location are put below its
-- root, and the file handler's public path leads back.
use text.Mathlib.TextPositions.{eq_refl}
use mathlib.Core.Path.{subst}
use qjazz.Prelude.{
  String, ◌≡◌, ◌⊎◌, inl, inr, refl, sym, ap, ◌∙◌, Bool, true, false, none, some, List, [], ◌∷◌, All,
  In, Option-cases, arith, map, ◌||◌,
}
use qjazz.Prelude.Exec.{ok}
use qjazz.Cache.Common.{Url, Texts}
use qjazz.Cache.Paths.{PosixPath, parse, print, relative_to, is_relative_to, join}
use qjazz.Cache.Paths.Laws.{
  IsPath, parse-print, parse-IsPath, relative_to-join, join-relative_to, relative_to-IsPath,
  join-IsPath,
}
use qjazz.Cache.Routes.{
  Route, static, dynamic, StaticRoute, static_resolve, resolve_route, project_url, resolve_in,
  validate_url, ProjectsConfig, resolve_path,
}
use qjazz.Cache.FileHandler.{public_path}

-- The template in the query of `rooturl` is no template: formatting it with a path changes nothing.
abbrev pub IsPlain : Texts → Url → Type 0
IsPlain t rooturl =
    (path : String) → t.format_map rooturl.query (("path", path) ∷ []) ≡ ok rooturl.query

module _ (t : Texts) (path rel : PosixPath) (location : String) (rooturl : Url) (wf : IsPath path)
    (inside : relative_to path (parse location) ≡ some rel) (plain : IsPlain t rooturl) where
  abbrev pub file_url : Url
  file_url = record rooturl { path = print (join (parse rooturl.path) rel) }

  pub project_url_plain : project_url t path (location, rooturl) ≡ ok file_url
  unfolding project_url
  project_url_plain =
      rw (inside, project_url) (rw (plain (print rel)) (ground (arith, eq_refl rooturl.query)))

  under_root : relative_to (parse file_url.path) (parse rooturl.path) ≡ some rel
  under_root =
      let root = (join-relative_to path (parse location) rel inside).1 in
      let wf_rel = relative_to-IsPath path (parse location) rel wf inside in
      let wf_url = join-IsPath (parse rooturl.path) rel (parse-IsPath rooturl.path) wf_rel root in
      rw (parse-print _ wf_url) (relative_to-join (parse rooturl.path) rel root)

  -- For a well-formed path inside a location, whose root url has no template: the file handler's
  -- `public_path` of the project's url is the text of the path.
  pub public_path-project_url :
      (url : Url)
      → project_url t path (location, rooturl) ≡ ok url
      → public_path url location rooturl ≡ ok (print path)
  unfolding public_path
  public_path-project_url url h =
      let same : file_url ≡ url = ground (arith, project_url_plain) in
      subst (λ (u : Url). public_path u location rooturl ≡ ok (print path)) same
        (rw (under_root, public_path)
          (ap (λ q. ok (print q)) (join-relative_to path (parse location) rel inside).0))

-- A static route of the list holds the path in its location, and what `path` has below the location
-- is what the url's path has below the root of the route.
pub record IsServed (t : Texts) (path : PosixPath) (rs : List Route) (url : Url) : Type 0 where
  pub route : StaticRoute
  pub listed : In (static route) rs
  pub rel : PosixPath
  pub located : relative_to path route.location ≡ some rel
  pub contained : relative_to (parse url.path) (parse route.url.path) ≡ some rel
  pub scheme : url.scheme ≡ route.url.scheme

-- A route list of static routes, with well-formed locations and roots without templates.
abbrev pub IsStatic : Texts → Route → Type 0
IsStatic t (static r) = IsPath r.location × IsPlain t r.url
IsStatic t (dynamic r) = ⊥

IsServed-weaken :
    (t : Texts) (path : PosixPath) (rs : List Route) (url : Url) (r : Route)
    → IsServed t path rs url
    → IsServed t path (r ∷ rs) url
IsServed-weaken t path rs url r s = record {
  route = s.route;
  listed = inr s.listed;
  rel = s.rel;
  located = s.located;
  contained = s.contained;
  scheme = s.scheme;
}

-- One step of the loop of `resolve_path` over static routes.
module _ (t : Texts) (direct : Bool) (path : PosixPath) (r : StaticRoute) (rs : List Route) where
  resolve_in_skip :
      relative_to path r.location ≡ none
      → resolve_in t direct path (static r ∷ rs) ≡ resolve_in t direct path rs
  unfolding resolve_in resolve_route static_resolve is_relative_to
  resolve_in_skip h = ground arith

  resolve_in_hit :
      (rel : PosixPath)
      → relative_to path r.location ≡ some rel
      → resolve_in t direct path (static r ∷ rs) ≡ project_url t path (print r.location, r.url)
  unfolding resolve_in resolve_route static_resolve is_relative_to
  resolve_in_hit rel h = ground arith

  served :
      (rel : PosixPath) (url : Url)
      → IsPath path
      → IsPath r.location
      → IsPlain t r.url
      → relative_to path r.location ≡ some rel
      → project_url t path (print r.location, r.url) ≡ ok url
      → IsServed t path (static r ∷ rs) url
  served rel url wf loc plain inside h =
      let inside' : relative_to path (parse (print r.location)) ≡ some rel =
        rw (parse-print r.location loc) inside in
      let same : file_url t path rel (print r.location) r.url wf inside' plain ≡ url =
        ground (arith, project_url_plain t path rel (print r.location) r.url wf inside' plain) in
      let root = under_root t path rel (print r.location) r.url wf inside' plain in
      record {
        route = r;
        listed = inl refl;
        rel = rel;
        located = inside;
        contained =
            subst (λ (u : Url). relative_to (parse u.path) (parse r.url.path) ≡ some rel) same root;
        scheme = sym (ap (λ (u : Url). u.scheme) same);
      }

-- With static routes only, a path resolves to a url below the root of one of the routes, with its
-- scheme, or direct resolution is allowed and reads the path itself as the url.
resolve_in-IsServed :
    (t : Texts) (direct : Bool) (path : PosixPath) (rs : List Route) (url : Url)
    → IsPath path
    → All (IsStatic t) rs
    → resolve_in t direct path rs ≡ ok url
    → IsServed t path rs url ⊎ ((direct ≡ true) × (url ≡ validate_url t (print path)))
unfolding resolve_in
resolve_in-IsServed t true path [] url wf h p = inr (refl, ground arith)
resolve_in-IsServed t false path [] url wf h p = absurd (ground arith)
resolve_in-IsServed t direct path (dynamic r ∷ rs) url wf h p = absurd h.0
resolve_in-IsServed t direct path (static r ∷ rs) url wf ((loc, plain), h) p =
    elim (Option-cases (relative_to path r.location)) [
      | inl outside ↦
          elim (resolve_in-IsServed t direct path rs url wf h
            (sym (resolve_in_skip t direct path r rs outside) ∙ p)) [
              | inl s ↦ inl (IsServed-weaken t path rs url (static r) s)
              | inr d ↦ inr d
            ]
      | inr (rel, inside) ↦ inl (
          served t direct path r rs rel url wf loc plain inside
            (sym (resolve_in_hit t direct path r rs rel inside) ∙ p))
    ]

-- Where every route of the configuration is static, with a well-formed location and a root without
-- template, and a request's path resolves to a url: either the location of one of the routes is a
-- prefix of the path, the root of that route is a prefix of the url's path, the parts that follow the
-- prefix are the same in both, and the scheme is the root's; or else direct resolution is allowed and
-- the url is read from the path itself. Prefixes are compared part by part as `pathlib` does: `..` is an
-- ordinary part, which is passed on, so that such a url may name a file outside of the root.
pub resolve_path-IsServed :
    (t : Texts) (conf : ProjectsConfig) (path : String) (allow_direct : Bool) (url : Url)
    → All (IsStatic t) (map (λ e. e.1) conf.search_paths)
    → resolve_path t conf path allow_direct ≡ ok url
    → IsServed t (parse path) (map (λ e. e.1) conf.search_paths) url
      ⊎ (((allow_direct || conf.allow_direct_path_resolution) ≡ true)
          × (url ≡ validate_url t (print (parse path))))
unfolding resolve_path
resolve_path-IsServed t conf path allow_direct url h p =
    resolve_in-IsServed t (allow_direct || conf.allow_direct_path_resolution) (parse path)
      (map (λ e. e.1) conf.search_paths) url (parse-IsPath path) h p
