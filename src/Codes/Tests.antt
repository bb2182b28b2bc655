-- ===== src/Codes/Tests.antt =====
-- Authorization codes, issued and redeemed on concrete tables.
use owne_x.Base.{◌≤◌, ◌≡◌, refl, none, some, List, [], ◌∷◌, arith, ok}
use owne_x.Base.Text.{Text, codes, ◌===◌, lower}
use owne_x.Codes.Store.{GrantInput, ConsumeQuery, Row, fresh_row}
use owne_x.Codes.Store.SingleUse.{Call, insertion, redemption, redemptions, redemptions-le-one}
use owne_x.Codes.Rows.{row_of, HasDistinctCodes}
use owne_x.Codes.Memory.{memory_code_store}
use owne_x.Codes.Postgres.{Postgres, delivered, lost, supabase_code_store}
use owne_x.Codes.Postgres.Lawful.{supabase_code_store-IsLawful}
use owne_x.Codes.Postgres.Agrees.{supabase-memory}
use owne_x.Codes.Operations.{stored_grant, issue_authorization_code, consume_authorization_code}
use owne_x.Codes.Operations.RoundTrip.{expected, consume-issue_supabase}

abbrev pub code : Text
code = codes "abcdefghijklmnopqrstuvwxyz0123456789ABCDEFG"

abbrev pub grant : GrantInput
grant = record {
  client_id = codes "client-1";
  app_slug = codes "payroll";
  org_id = 7;
  wallet = codes "0xAb";
  redirect_uri = codes "https://partner.example/callback";
}

abbrev query : ConsumeQuery
query = record {
  code = code;
  client_id = codes "client-1";
  redirect_uri = codes "https://partner.example/callback";
  now = 1000;
}

abbrev other_row : Row
other_row = fresh_row (stored_grant grant (codes "another") 3)

abbrev table : List Row
table = other_row ∷ []

absent : row_of code table ≡ none
unfolding row_of ◌===◌
absent = refl

redeemed :
    expected grant 0 query
    ≡ some (record {
      app_slug = codes "payroll";
      org_id = 7;
      wallet = codes "0xab";
      redirect_uri = codes "https://partner.example/callback";
    })
unfolding ◌===◌ lower
redeemed = refl

table_distinct : HasDistinctCodes table
unfolding row_of
table_distinct = (refl, tt)

-- A code that is issued and presented twice, where the first answer is lost.
abbrev calls : List Call
calls =
    insertion (stored_grant grant code 0)
    ∷ redemption query
    ∷ redemption (record query { now = 1001 })
    ∷ []

abbrev database : Postgres
database = record { rows = table; replies = delivered ∷ lost ∷ [] }

redemptions-le-one_example : redemptions supabase_code_store code calls database ≤ 1
redemptions-le-one_example =
    redemptions-le-one supabase_code_store-IsLawful code calls database table_distinct

supabase-memory_example :
    supabase_code_store.consume query (record { rows = table; replies = [] }) ≡ (
      (memory_code_store.consume query table).0,
      record { rows = (memory_code_store.consume query table).1; replies = [] },
    )
supabase-memory_example = supabase-memory query table table_distinct

consume-issue_supabase_example :
    (consume_authorization_code supabase_code_store query
      (issue_authorization_code supabase_code_store grant code 0
        (record { rows = table; replies = [] })).1).0
    ≡ ok (expected grant 0 query)
consume-issue_supabase_example =
    consume-issue_supabase grant 0 query table (omega arith) absent table_distinct
