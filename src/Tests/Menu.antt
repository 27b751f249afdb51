-- ===== src/Tests/Menu.antt =====
-- Catalog requests on the sample shop beside another tenant's category.
use kasirk_backend.Base.{◌≡◌, refl, true, false, List, [], ◌∷◌, ◌++◌, some, none, arith}
use kasirk_backend.Base.Sort.{list_eq}
use kasirk_backend.Base.Text.{trim}
use kasirk_backend.Common.Errors.{ok}
use kasirk_backend.Database.Rows.{Db, single}
use kasirk_backend.Catalog.Tables.{CatalogUser, unless_taken}
use kasirk_backend.Catalog.Categories.{update_category, find_category, rename_category}
use kasirk_backend.Catalog.Assignments.{
  AssignmentDto, GroupResponse, replace_modifier_groups, get_modifier_groups,
}
use kasirk_backend.Catalog.Requests.{CatalogRequest, patch_category, serve}
use kasirk_backend.Catalog.Isolation.{HasKeys, IsIsolated, serve-IsIsolated}
use kasirk_backend.Catalog.Rules.{IsSound, serve-IsSound}
use kasirk_backend.Catalog.Replace.{IsReplaced, replace_modifier_groups-read}
use kasirk_backend.Tests.Sample.{shop}

abbrev two_tenants : Db
two_tenants = record shop {
  categories =
      record { id = 30; tenant_id = 1; name = 68 ∷ [] }
      ∷ record { id = 31; tenant_id = 9; name = 69 ∷ [] }
      ∷ [];
}

abbrev manager : CatalogUser
manager = record { tenant_id = 1; outlet_id = none }

abbrev renaming : CatalogRequest
renaming = patch_category 30 (32 ∷ 69 ∷ [])

abbrev renamed : Db
renamed = record two_tenants {
  categories =
      record { id = 30; tenant_id = 1; name = 69 ∷ [] }
      ∷ record { id = 31; tenant_id = 9; name = 69 ∷ [] }
      ∷ [];
}

renaming_run : serve manager renaming two_tenants ≡ ok renamed
unfolding serve update_category find_category rename_category trim unless_taken list_eq
renaming_run = refl

two_tenants-HasKeys : HasKeys two_tenants
two_tenants-HasKeys = record { category_ids = λ id. ground arith; option_ids = λ id. ground arith }

serve-IsIsolated_example : IsIsolated 1 two_tenants renamed
serve-IsIsolated_example =
    serve-IsIsolated manager renaming two_tenants renamed two_tenants-HasKeys renaming_run

two_tenants-IsSound : IsSound two_tenants
two_tenants-IsSound = record { supported = (refl, tt); categorized = (refl, (tt, tt)) }

serve-IsSound_example : IsSound renamed
serve-IsSound_example =
    serve-IsSound manager renaming two_tenants renamed two_tenants-IsSound renaming_run

abbrev assignments : List AssignmentDto
assignments =
    record {
      modifier_group_id = record { value = 20; casing = 1 };
      required = false;
      selection_type = some single;
      display_order = 3;
    }
    ∷ []

abbrev replaced : Db
replaced = record shop {
  product_modifier_groups =
      record {
        tenant_id = 1;
        product_id = 11;
        modifier_group_id = 20;
        required = false;
        selection_type = single;
        display_order = 3;
      }
      ∷ [];
}

abbrev menu : List GroupResponse
menu =
    record {
      id = 20;
      name = 71 ∷ [];
      required = false;
      selection_type = single;
      display_order = 3;
      options =
          record {
            id = 21;
            tenant_id = 1;
            modifier_group_id = 20;
            name = 79 ∷ [];
            price_delta = 2000;
            is_active = true;
            display_order = 0;
          }
          ∷ [];
    }
    ∷ []

-- The groups of the bread beside those of the coffee.
abbrev both : Db
both = record replaced {
  product_modifier_groups = ◌++◌ shop.product_modifier_groups replaced.product_modifier_groups;
}

replace_run : replace_modifier_groups manager 11 assignments shop ≡ ok (menu, both)
unfolding replace_modifier_groups
replace_run = refl

replace_modifier_groups-read_example :
    IsReplaced 1 11 assignments shop both menu
    × (get_modifier_groups manager 11 both ≡ ok (menu, both))
replace_modifier_groups-read_example =
    replace_modifier_groups-read manager 11 assignments shop both menu replace_run
