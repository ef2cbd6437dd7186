-- ===== src/Seeds/Joiner.antt =====
-- The workflow, the trigger and the people of graph/management/commands/seed_joiner.py.
use nutanix_hack.Prelude.{String, List, [], ◌∷◌}
use nutanix_hack.Prelude.Int.{pos}
use nutanix_hack.Json.{Value, Fields, num, str, arr, obj, nil, cons, end, field}

abbrev pub new_joiner : Value
new_joiner = obj (
    field "name" (str "new_joiner") (
      field "description" (str "Everything that has to happen when someone accepts an offer.") (
        field "steps"
          (arr (
            cons
              (obj (
                field "id" (str "create_email_account") (
                  field "type" (str "http") (
                    field "config"
                      (obj (
                        field "method" (str "POST") (
                          field "url" (str "http://nodes:9000/google/create-account") (
                            field "body" (obj (field "person" (str "{{ input.person }}") end))
                              end))))
                      (field "retry"
                        (obj (
                          field "max" (num (pos 3)) (
                            field "backoff" (str "exponential")
                              (field "base_ms" (num (pos 300)) end))))
                        (field "compensate"
                          (obj (
                            field "type" (str "http") (
                              field "config"
                                (obj (
                                  field "method" (str "POST") (
                                    field "url" (str "http://nodes:9000/google/delete-account") (
                                      field "body"
                                        (obj (field "person" (str "{{ input.person }}") end))
                                        end))))
                                end)))
                          end))))))
              (cons
                (obj (
                  field "id" (str "order_laptop") (
                    field "type" (str "http") (
                      field "needs" (arr (cons (str "create_email_account") nil)) (
                        field "config"
                          (obj (
                            field "method" (str "POST") (
                              field "url" (str "http://nodes:9000/it/order-laptop") (
                                field "body"
                                  (obj (
                                    field "person" (str "{{ input.person }}")
                                      (field "model" (str "MacBook Pro 14") end)))
                                  end))))
                          (field "compensate"
                            (obj (
                              field "type" (str "http") (
                                field "config"
                                  (obj (
                                    field "method" (str "POST") (
                                      field "url" (str "http://nodes:9000/it/cancel-laptop") (
                                        field "body"
                                          (obj (field "person" (str "{{ input.person }}") end))
                                          end))))
                                  end)))
                            end))))))
                (cons
                  (obj (
                    field "id" (str "invite_to_slack") (
                      field "type" (str "http") (
                        field "needs" (arr (cons (str "create_email_account") nil)) (
                          field "config"
                            (obj (
                              field "method" (str "POST") (
                                field "url" (str "http://nodes:9000/slack/invite") (
                                  field "body" (obj (field "person" (str "{{ input.person }}") end))
                                    end))))
                            (field "compensate"
                              (obj (
                                field "type" (str "http") (
                                  field "config"
                                    (obj (
                                      field "method" (str "POST") (
                                        field "url" (str "http://nodes:9000/slack/deactivate") (
                                          field "body"
                                            (obj (field "person" (str "{{ input.person }}") end))
                                            end))))
                                    end)))
                              end))))))
                  (cons
                    (obj (
                      field "id" (str "grant_github_access") (
                        field "type" (str "http") (
                          field "needs" (arr (cons (str "create_email_account") nil)) (
                            field "config"
                              (obj (
                                field "method" (str "POST") (
                                  field "url" (str "http://nodes:9000/github/add-member") (
                                    field "body"
                                      (obj (
                                        field "person" (str "{{ input.person }}")
                                          (field "access" (str "write") end)))
                                      end))))
                              (field "compensate"
                                (obj (
                                  field "type" (str "http") (
                                    field "config"
                                      (obj (
                                        field "method" (str "POST") (
                                          field "url" (str "http://nodes:9000/github/remove-member")
                                            (field "body"
                                              (obj (field "person" (str "{{ input.person }}") end))
                                              end))))
                                      end)))
                                end))))))
                    (cons
                      (obj (
                        field "id" (str "enrol_in_payroll") (
                          field "type" (str "http") (
                            field "needs"
                              (arr (
                                cons (str "order_laptop") (
                                  cons (str "invite_to_slack")
                                    (cons (str "grant_github_access") nil))))
                              (field "config"
                                (obj (
                                  field "method" (str "POST") (
                                    field "url" (str "http://nodes:9000/payroll/enrol") (
                                      field "body"
                                        (obj (
                                          field "person" (str "{{ input.person }}")
                                            (field "band" (str "{{ input.band }}") end)))
                                        end))))
                                (field "on_error" (str "compensate") end))))))
                      (cons
                        (obj (
                          field "id" (str "email_the_manager") (
                            field "type" (str "noop") (
                              field "needs" (arr (cons (str "enrol_in_payroll") nil)) (
                                field "config"
                                  (obj (
                                    field "output"
                                      (obj (
                                        field "to" (str "{{ input.manager }}") (
                                          field "subject" (str "{{ input.person }} is fully set up")
                                            end)))
                                      end))
                                  end)))))
                        nil)))))))
          end)))

abbrev pub joiner_trigger : Value
joiner_trigger = obj (
    field "name" (str "onboard anyone who accepts an offer") (
      field "entity_type" (str "person") (
        field "predicate"
          (obj (
            field "changed" (arr (cons (str "employment_status") nil)) (
              field "match" (obj (field "employment_status" (str "hired") end)) (
                field "was"
                  (obj (field "employment_status" (obj (field "ne" (str "hired") end)) end)) end))))
          (field "input_template"
            (obj (
              field "person" (str "{{ entity.external_id }}") (
                field "manager" (str "{{ entity.attrs.manager }}")
                  (field "band" (str "{{ entity.attrs.band }}") end))))
            end))))

abbrev pub people : List (String × Fields)
people =
    (
      "priya.sharma",
      (field "full_name" (str "Priya Sharma") (
          field "role" (str "Backend Engineer") (
            field "manager" (str "asha.menon")
              (field "band" (str "IC3") (field "employment_status" (str "offer_accepted") end))))),
    )
    ∷ (
      "rahul.nair",
      (field "full_name" (str "Rahul Nair") (
          field "role" (str "Data Engineer") (
            field "manager" (str "asha.menon")
              (field "band" (str "IC2") (field "employment_status" (str "offer_accepted") end))))),
    )
    ∷ []
