-- ===== src/Seeds/Demo.antt =====
-- The first workflows of engine/management/commands/seed_demo.py.
use nutanix_hack.Prelude.{true}
use nutanix_hack.Prelude.Int.{pos}
use nutanix_hack.Json.{Value, bool, num, str, arr, obj, nil, cons, end, field}

abbrev pub linear : Value
linear = obj (
    field "name" (str "demo_linear") (
      field "steps"
        (arr (
          cons
            (obj (
              field "id" (str "fetch") (
                field "type" (str "noop") (
                  field "config"
                    (obj (
                      field "output"
                        (obj (field "records" (num (pos 3)) (field "source" (str "inventory") end)))
                        end))
                    end))))
            (cons
              (obj (
                field "id" (str "transform") (
                  field "type" (str "shell") (
                    field "needs" (arr (cons (str "fetch") nil)) (
                      field "config"
                        (obj (
                          field "cmd"
                            (str
                              "python -c \"print('transformed {{ steps.fetch.output.records }} records')\"")
                            end))
                        end)))))
              (cons
                (obj (
                  field "id" (str "validate") (
                    field "type" (str "shell") (
                      field "needs" (arr (cons (str "transform") nil)) (
                        field "config"
                          (obj (field "cmd" (str "python -c \"print('validation passed')\"") end))
                          end)))))
                (cons
                  (obj (
                    field "id" (str "publish") (
                      field "type" (str "noop") (
                        field "needs" (arr (cons (str "validate") nil)) (
                          field "config"
                            (obj (field "output" (obj (field "published" (bool true) end)) end))
                            end)))))
                  nil)))))
        end))

abbrev pub diamond : Value
diamond = obj (
    field "name" (str "demo_diamond") (
      field "steps"
        (arr (
          cons
            (obj (
              field "id" (str "start") (
                field "type" (str "noop") (
                  field "config" (obj (field "output" (obj (field "ok" (bool true) end)) end))
                    end))))
            (cons
              (obj (
                field "id" (str "branch_a") (
                  field "type" (str "shell") (
                    field "needs" (arr (cons (str "start") nil)) (
                      field "config"
                        (obj (
                          field "cmd"
                            (str "python -c \"import time; time.sleep(2); print('A done')\"") end))
                        end)))))
              (cons
                (obj (
                  field "id" (str "branch_b") (
                    field "type" (str "shell") (
                      field "needs" (arr (cons (str "start") nil)) (
                        field "config"
                          (obj (
                            field "cmd"
                              (str "python -c \"import time; time.sleep(2); print('B done')\"")
                              end))
                          end)))))
                (cons
                  (obj (
                    field "id" (str "branch_c") (
                      field "type" (str "shell") (
                        field "needs" (arr (cons (str "start") nil)) (
                          field "config"
                            (obj (
                              field "cmd"
                                (str "python -c \"import time; time.sleep(2); print('C done')\"")
                                end))
                            end)))))
                  (cons
                    (obj (
                      field "id" (str "join") (
                        field "type" (str "noop") (
                          field "needs"
                            (arr (
                              cons (str "branch_a")
                                (cons (str "branch_b") (cons (str "branch_c") nil))))
                            (field "config"
                              (obj (field "output" (obj (field "merged" (bool true) end)) end))
                              end)))))
                    nil))))))
        end))

abbrev pub failing : Value
failing = obj (
    field "name" (str "demo_failing") (
      field "steps"
        (arr (
          cons
            (obj (
              field "id" (str "setup") (
                field "type" (str "noop") (
                  field "config" (obj (field "output" (obj (field "ready" (bool true) end)) end))
                    end))))
            (cons
              (obj (
                field "id" (str "risky") (
                  field "type" (str "shell") (
                    field "needs" (arr (cons (str "setup") nil)) (
                      field "config"
                        (obj (field "cmd" (str "python -c \"raise SystemExit(1)\"") end)) end)))))
              (cons
                (obj (
                  field "id" (str "never_runs")
                    (field "type" (str "noop") (field "needs" (arr (cons (str "risky") nil)) end))))
                nil))))
        end))
