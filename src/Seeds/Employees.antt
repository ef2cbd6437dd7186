-- ===== src/Seeds/Employees.antt =====
-- The workflow, the triggers and the entities of graph/management/commands/seed_graph.py.
use nutanix_hack.Prelude.{String, List, [], ◌∷◌}
use nutanix_hack.Prelude.Int.{pos}
use nutanix_hack.Json.{Value, Fields, num, str, arr, obj, nil, cons, end, field}

abbrev pub onboarding : Value
onboarding = obj (
    field "name" (str "employee_onboarding") (
      field "steps"
        (arr (
          cons
            (obj (
              field "id" (str "assign_device") (
                field "type" (str "http") (
                  field "config"
                    (obj (
                      field "method" (str "POST") (
                        field "url" (str "http://nodes:9000/devices/assign") (
                          field "body"
                            (obj (
                              field "employee" (str "{{ input.employee }}")
                                (field "device" (str "laptop-standard") end)))
                            end))))
                    (field "retry"
                      (obj (
                        field "max" (num (pos 3)) (
                          field "backoff" (str "exponential")
                            (field "base_ms" (num (pos 300)) end))))
                      end)))))
            (cons
              (obj (
                field "id" (str "provision_github") (
                  field "type" (str "http") (
                    field "needs" (arr (cons (str "assign_device") nil)) (
                      field "config"
                        (obj (
                          field "method" (str "POST") (
                            field "url" (str "http://nodes:9000/apps/github/accounts") (
                              field "body"
                                (obj (
                                  field "employee" (str "{{ input.employee }}")
                                    (field "role" (str "developer") end)))
                                end))))
                        end)))))
              (cons
                (obj (
                  field "id" (str "provision_slack") (
                    field "type" (str "http") (
                      field "needs" (arr (cons (str "assign_device") nil)) (
                        field "config"
                          (obj (
                            field "method" (str "POST") (
                              field "url" (str "http://nodes:9000/apps/slack/accounts") (
                                field "body"
                                  (obj (
                                    field "employee" (str "{{ input.employee }}")
                                      (field "role" (str "member") end)))
                                  end))))
                          end)))))
                (cons
                  (obj (
                    field "id" (str "provision_pagerduty") (
                      field "type" (str "http") (
                        field "needs" (arr (cons (str "assign_device") nil)) (
                          field "config"
                            (obj (
                              field "method" (str "POST") (
                                field "url" (str "http://nodes:9000/apps/pagerduty/accounts") (
                                  field "body"
                                    (obj (
                                      field "employee" (str "{{ input.employee }}")
                                        (field "role" (str "responder") end)))
                                    end))))
                            end)))))
                  (cons
                    (obj (
                      field "id" (str "notify_manager") (
                        field "type" (str "noop") (
                          field "needs"
                            (arr (
                              cons (str "provision_github") (
                                cons (str "provision_slack")
                                  (cons (str "provision_pagerduty") nil))))
                            (field "config"
                              (obj (
                                field "output"
                                  (obj (
                                    field "notified" (str "{{ input.manager }}")
                                      (field "about" (str "{{ input.employee }}") end)))
                                  end))
                              end)))))
                    nil))))))
        end))

abbrev pub graph_triggers : List Value
graph_triggers =
    (obj (
      field "name" (str "onboard engineers in India") (
        field "entity_type" (str "employee") (
          field "workflow" (str "employee_onboarding") (
            field "predicate"
              (obj (
                field "changed" (arr (cons (str "department") nil)) (
                  field "match"
                    (obj (field "department" (str "Engineering") (field "geo" (str "IN") end)))
                    (field "was"
                      (obj (field "department" (obj (field "ne" (str "Engineering") end)) end))
                      end))))
              (field "input_template"
                (obj (
                  field "employee" (str "{{ entity.external_id }}")
                    (field "manager" (str "{{ entity.attrs.manager }}") end)))
                end))))))
    ∷ (obj (
        field "name" (str "repair unhealthy nodes") (
          field "entity_type" (str "node") (
            field "workflow" (str "rolling_cluster_upgrade") (
              field "predicate"
                (obj (
                  field "changed" (arr (cons (str "status") nil)) (
                    field "match" (obj (field "status" (str "unhealthy") end))
                      (field "was" (obj (field "status" (str "healthy") end)) end))))
                (field "input_template" (obj (field "node" (str "{{ entity.external_id }}") end))
                  end))))))
    ∷ []

abbrev pub employees : List (String × Fields)
employees =
    (
      "e_42",
      (field "name" (str "Asha Menon") (
          field "department" (str "Support") (
            field "geo" (str "IN")
              (field "manager" (str "m_07") (field "title" (str "Support Engineer") end))))),
    )
    ∷ (
      "e_43",
      (field "name" (str "Rahul Verma") (
          field "department" (str "Engineering") (
            field "geo" (str "IN")
              (field "manager" (str "m_07") (field "title" (str "Backend Engineer") end))))),
    )
    ∷ []

abbrev pub seed_nodes : List (String × Fields)
seed_nodes =
    (
      "node-1",
      (field "status" (str "healthy") (field "version" (str "7.0") (field "rack" (str "r2") end))),
    )
    ∷ (
      "node-2",
      (field "status" (str "healthy") (field "version" (str "7.0") (field "rack" (str "r1") end))),
    )
    ∷ (
      "node-3",
      (field "status" (str "healthy") (field "version" (str "7.0") (field "rack" (str "r2") end))),
    )
    ∷ (
      "node-4",
      (field "status" (str "healthy") (field "version" (str "7.0") (field "rack" (str "r1") end))),
    )
    ∷ (
      "node-5",
      (field "status" (str "healthy") (field "version" (str "7.0") (field "rack" (str "r2") end))),
    )
    ∷ []
