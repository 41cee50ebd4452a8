-- ===== src/Tests/Tenants.antt =====
-- Tenants and API keys.
use payflow_payments_ops_pla.Base.{◌≡◌, refl, true, false, some, [], ◌∷◌, arith}
use payflow_payments_ops_pla.Text.{Text, codes, trim_space, byte_len}
use payflow_payments_ops_pla.Store.{Db, ok, stmt, transact}
use payflow_payments_ops_pla.Store.Faults.{clean, at}
use payflow_payments_ops_pla.Audit.{write}
use payflow_payments_ops_pla.ApiKeys.{
  hash_api_key, generate_api_key, admitted, invalid_api_key, authenticate,
}
use payflow_payments_ops_pla.Tenants.{
  is_valid_name, insert_tenant, new_key, insert_key, create_tenant_tx, create_tenant, revoke,
  revoke_tx, revoke_api_key,
}
use payflow_payments_ops_pla.Tenants.Outcome.{Outcome, create_tenant-Outcome}
use payflow_payments_ops_pla.Tenants.Keys.{create_tenant-authenticate, revoke_api_key-authenticate}
use payflow_payments_ops_pla.System.{empty_db}
use payflow_payments_ops_pla.Tests.Data.{demo_env, draw}

abbrev shop_key : Text
shop_key = codes "pf_live_00ff"

abbrev shop_db : Db
shop_db =
    (clean (create_tenant demo_env (draw 7) 8 (some (0 ∷ 255 ∷ [])) (codes " Shop ")) empty_db).1

shop_run :
    clean (create_tenant demo_env (draw 7) 8 (some (0 ∷ 255 ∷ [])) (codes " Shop ")) empty_db
    ≡ (ok (7, shop_key), shop_db)
unfolding create_tenant create_tenant_tx insert_tenant generate_api_key insert_key is_valid_name
    trim_space byte_len write stmt transact hash_api_key
shop_run = refl

create_tenant-authenticate_example :
    clean (authenticate demo_env (codes " pf_live_00ff")) shop_db ≡ (ok (admitted 7 8), shop_db)
unfolding trim_space
create_tenant-authenticate_example =
    create_tenant-authenticate demo_env (draw 7) 8 (some (0 ∷ 255 ∷ [])) (codes " Shop ") empty_db
      shop_db 7 shop_key (codes " pf_live_00ff") shop_run refl

create_tenant-Outcome_example :
    Outcome demo_env (draw 7) 8 (some (0 ∷ 255 ∷ [])) (codes "Shop") empty_db (
      create_tenant demo_env
        (draw 7)
        8
        (some (0 ∷ 255 ∷ []))
        (codes "Shop")
        (at empty_db (false ∷ true ∷ [])))
create_tenant-Outcome_example =
    create_tenant-Outcome demo_env (draw 7) 8 (some (0 ∷ 255 ∷ [])) (codes "Shop") empty_db
      (false ∷ true ∷ [])

abbrev revoked_db : Db
revoked_db = (clean (revoke_api_key demo_env 9 7 8) shop_db).1

revoke_api_key-authenticate_example :
    (clean (authenticate demo_env shop_key) revoked_db).0 ≡ ok invalid_api_key
unfolding create_tenant create_tenant_tx insert_tenant generate_api_key insert_key is_valid_name
    trim_space byte_len write stmt transact hash_api_key revoke_api_key revoke_tx revoke
revoke_api_key-authenticate_example =
    revoke_api_key-authenticate demo_env 9 7 8 shop_key (new_key demo_env (draw 7) 8 7 shop_key)
      shop_db revoked_db refl refl (omega arith) refl refl
