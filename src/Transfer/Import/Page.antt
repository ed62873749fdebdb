-- ===== src/Transfer/Import/Page.antt =====
-- `importPublicPage`
use mosona_manager.Identity.{Bytes-discrete}
use mathlib.Core.Logic.{ite}
use mosona_manager.Transfer.Bundle.{PublicPage}
use mosona_manager.Transfer.Database.{
  Result, Tx, and_then, ◌>>=◌, pure, lift, Failures, exec, update_team_rows, inserts_page,
  invalid_public_page,
}
use mosona_manager.Transfer.Page.{
  is_empty, normalized_name, normalized_domain, normalized_title, normalized_description,
}
use mosona_manager.Transfer.Checks.{Library}
use mosona_manager.Prelude.{
  Bool, List, Option, [], false, get_or, if◌then◌else◌, inl, inr, is_some, none, not, some, true, ℕ,
  ◌&&◌, ◌||◌,
}

abbrev pub export_str : Option (List ℕ) → List ℕ
export_str v = get_or v []

abbrev pub or_invalid_page : {A : Type 0} → Option A → Result A
or_invalid_page none = inl invalid_public_page
or_invalid_page (some a) = inr a

abbrev pub is_base_domain : List ℕ → Option (List ℕ) → Bool
is_base_domain base none = false
is_base_domain base (some domain) =
    not (is_empty base) && ite (Bytes-discrete domain base) true false

module _ (lib : Library) (fails : Failures) (team : ℕ) (base_domain : List ℕ) where
  abbrev pub normalize_public_page_custom_css : List ℕ → Option (List ℕ)
  normalize_public_page_custom_css raw = if is_empty (lib.trim_space raw) then none else some raw

  -- the checks; `base_domain` is the application's own, normalised
  unfoldable pub normalized_page : PublicPage → Result PublicPage
  normalized_page page =
      and_then
        (or_invalid_page (normalized_name (lib.to_lower (lib.trim_space (export_str page.name)))))
        (λ name.
          and_then
            (or_invalid_page
              (normalized_domain (lib.to_lower (lib.trim_space (export_str page.domain)))))
            (λ domain.
              and_then (or_invalid_page (normalized_title (lib.trim_space (export_str page.title))))
                (λ title.
                  if (page.enabled && not (is_some name || is_some domain))
                    || is_base_domain base_domain domain
                  then inl invalid_public_page
                  else inr (record {
                    enabled = page.enabled;
                    name = name;
                    domain = domain;
                    title = title;
                    description =
                        normalized_description (lib.trim_space (export_str page.description));
                    custom_css = normalize_public_page_custom_css (export_str page.custom_css);
                  }))))

  unfoldable pub import_public_page : Option PublicPage → Tx (Unit {0})
  import_public_page none = pure tt
  import_public_page (some page) = lift (normalized_page page) >>= λ normalized.
      exec fails inserts_page
        (update_team_rows team (λ r. record r { public_page = some normalized }))
