-- ===== src/Web/Sidebar/Agreed.antt =====
-- The navigation shows a user the pages that the user may visit.
use mathlib.Core.List.{Memᴰ}
use stprivy.Common.{
  ◌≡◌, ◌↔◌, refl, sym, subst, String, true, false, Option, none, some, List, [], ◌∷◌, arith, inl,
  inr,
}
use stprivy.Common.Tests.{Bool-cases}
use stprivy.Common.Lists.{All}
use stprivy.Domain.{Role}
use stprivy.Credential.Texts.{after_prefix}
use stprivy.Web.{Tab, AuthUser, has_token, redirect}
use stprivy.Web.Sidebar.{NavSection, nav_sections, hides, shown_items, allowed_roles}

All-Memᴰ : {A : Type 0} (P : A → Type 0) (xs : List A) (x : A) → All P xs → Memᴰ x xs → P x
All-Memᴰ P [] x h m = elim m [ ]
All-Memᴰ P (y ∷ xs) x (h, hs) (Memᴰ.head e) = subst P (sym e) h
All-Memᴰ P (y ∷ xs) x (h, hs) (Memᴰ.tail m) = All-Memᴰ P xs x hs m

-- a section asks for the roles that the layouts of all its pages ask for
same_roles :
    All (λ section. All (λ item. allowed_roles item.0 ≡ section.roles) section.items) nav_sections
unfolding allowed_roles after_prefix
same_roles = ground arith

stays-hides :
    (t : Tab) (u : AuthUser) (roles : Option (List Role))
    → t.is_loading ≡ false
    → has_token t.token ≡ true
    → t.user ≡ some u
    → (hides roles t.user ≡ false) ↔ (redirect roles t ≡ none)
unfolding redirect
stays-hides t u none ready logged_in user = rw (ready, logged_in) (λ e. refl, λ e. refl)
stays-hides t u (some roles) ready logged_in user =
    rw (ready, logged_in, user) (λ e. ground (arith, e), λ e. ground (arith, e))

-- When the user is known, an item of the navigation stands in its open section exactly if the
-- layout of the page that it leads to lets the user stay there.
pub nav_iff :
    (t : Tab) (u : AuthUser) (section : NavSection) (item : String × String)
    → t.is_loading ≡ false
    → has_token t.token ≡ true
    → t.user ≡ some u
    → Memᴰ section nav_sections
    → Memᴰ item section.items
    → Memᴰ item (shown_items t.user true section) ↔ (redirect (allowed_roles item.0) t ≡ none)
unfolding shown_items
nav_iff t u section item ready logged_in user known listed =
    let roles : allowed_roles item.0 ≡ section.roles =
      All-Memᴰ (λ i. allowed_roles i.0 ≡ section.roles) section.items item
        (All-Memᴰ (λ x. All (λ i. allowed_roles i.0 ≡ x.roles) x.items) nav_sections section
          same_roles known)
        listed in
    let stays = stays-hides t u section.roles ready logged_in user in
    elim (Bool-cases (hides section.roles t.user)) [
      | inl hidden ↦
          rw (hidden, roles) (λ m. elim m [ ], λ e. absurd (ground (arith, hidden, stays.1 e)))
      | inr open_to ↦ rw (open_to, roles) (λ m. stays.0 open_to, λ e. listed)
    ]
