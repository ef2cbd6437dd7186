-- ===== src/Seeds/Acme.antt =====
-- What core/management/commands/seed_tenant.py gives a second tenant.
use nutanix_hack.Prelude.{true, String, List, [], ◌∷◌}
use nutanix_hack.Json.{Value, Fields, bool, str, arr, obj, nil, cons, end, field}

abbrev pub acme_workflow : Value
acme_workflow = obj (
    field "name" (str "employee_onboarding") (
      field "steps"
        (arr (
          cons
            (obj (
              field "id" (str "welcome") (
                field "type" (str "noop") (
                  field "config"
                    (obj (
                      field "output"
                        (obj (field "greeting" (str "welcome to {{ input.company }}") end)) end))
                    end))))
            (cons
              (obj (
                field "id" (str "grant_access") (
                  field "type" (str "noop") (
                    field "needs" (arr (cons (str "welcome") nil)) (
                      field "config"
                        (obj (field "output" (obj (field "granted" (bool true) end)) end)) end)))))
              nil)))
        end))

abbrev pub acme_trigger : Value
acme_trigger = obj (
    field "name" (str "onboard anyone joining engineering") (
      field "entity_type" (str "employee") (
        field "predicate"
          (obj (
            field "changed" (arr (cons (str "department") nil)) (
              field "match" (obj (field "department" (str "Engineering") end)) (
                field "was"
                  (obj (field "department" (obj (field "ne" (str "Engineering") end)) end)) end))))
          (field "input_template"
            (obj (
              field "employee" (str "{{ entity.external_id }}") (field "company" (str "acme") end)))
            end))))

abbrev pub acme_employees : List (String × Fields)
acme_employees =
    (
      "e_42",
      (field "name" (str "Someone Else Entirely")
          (field "department" (str "Sales") (field "geo" (str "US") end))),
    )
    ∷ (
      "e_99",
      (field "name" (str "Acme Person")
          (field "department" (str "Sales") (field "geo" (str "US") end))),
    )
    ∷ []
