-- ===== src/Database/Actors.antt =====
-- The active users of active tenants, as the services look their actors up.
use kasirk_backend.Base.{ℕ, ◌&&◌, Bool, ◌==◌, any}
use kasirk_backend.Database.Rows.{Db, User}

abbrev pub active_user : ℕ → ℕ → Db → User → Bool
active_user sub tenant db u =
    u.id == sub
    && u.tenant_id == tenant
    && u.is_active
    && any (λ t. t.id == tenant && t.is_active) db.tenants
