-- ===== src/Dummy/Messages.antt =====
-- The messages of the transports that make a load: eventMessages of plugins/transport/dummy-events/main.go,
-- logMessages of dummy-logs/main.go and ceilometerMessage of dummy-metrics/main.go.
use Prim.Native.String.{String, ◌++◌}
use sg_core.Prelude.{List, [], ◌∷◌}

abbrev ceilometer_event : String
ceilometer_event =
    "{\"request\":{\"oslo.version\":\"2.0\",\"oslo.message\":\"{\\\"message_id\\\":\\\"4c9fbb58-c82d-4ca"
    ++ "5-9f4c-2c61d0693214\\\",\\\"publisher_id\\\":\\\"telemetry.publisher.controller-0.redhat.loc"
    ++ "al\\\",\\\"event_type\\\":\\\"event\\\",\\\"priority\\\":\\\"SAMPLE\\\",\\\"payload\\\":[{\\\"message_id\\\":\\"
    ++ "\"084c0bca-0d19-40c0-a724-9916e4815845\\\",\\\"event_type\\\":\\\"image.delete\\\",\\\"generated\\"
    ++ "\":\\\"2020-03-06T14:13:29.497096\\\",\\\"traits\\\":[[\\\"service\\\",1,\\\"image.localhost\\\"],[\\\""
    ++ "project_id\\\",1,\\\"0f500647077b47f08a8ca9181e9b7aef\\\"],[\\\"user_id\\\",1,\\\"0f500647077b47"
    ++ "f08a8ca9181e9b7aef\\\"],[\\\"resource_id\\\",1,\\\"c4f7e00b-df85-4b77-9e1a-26a1de4d5735\\\"],["
    ++ "\\\"name\\\",1,\\\"cirros\\\"],[\\\"status\\\",1,\\\"deleted\\\"],[\\\"created_at\\\",4,\\\"2020-03-06T14:"
    ++ "01:07\\\"],[\\\"deleted_at\\\",4,\\\"2020-03-06T14:13:29\\\"],[\\\"size\\\",2,13287936]],\\\"raw\\\":{"
    ++ "},\\\"message_signature\\\":\\\"77e798b842991f9c0c35bda265fdf86075b4a1e58309db1d2adbf89386"
    ++ "a3859e\\\"}],\\\"timestamp\\\":\\\"2020-03-06 14:13:30.057411\\\"}\"},\"context\": {}}}"

abbrev connectivity_event : String
connectivity_event =
    "[{\"labels\":{\"alertname\":\"collectd_connectivity_gauge\",\"instance\":\"d60b3c68f23e\",\"con"
    ++ "nectivity\":\"eno2\",\"type\":\"interface_status\",\"severity\":\"FAILURE\",\"service\":\"collectd"
    ++ "\"},\"annotations\":{\"summary\":\"\",\"ves\":\"{\\\"domain\\\":\\\"stateChange\\\",\\\"eventId\\\":2,\\\"ev"
    ++ "entName\\\":\\\"interface eno2 up\\\",\\\"lastEpochMicrosec\\\":1518790014024924,\\\"priority\\\":"
    ++ "\\\"high\\\",\\\"reportingEntityName\\\":\\\"collectd connectivity plugin\\\",\\\"sequence\\\":0,\\\"s"
    ++ "ourceName\\\":\\\"eno2\\\",\\\"startEpochMicrosec\\\":1518790009881440,\\\"version\\\":1.0,\\\"state"
    ++ "ChangeFields\\\":{\\\"newState\\\":\\\"outOfService\\\",\\\"oldState\\\":\\\"inService\\\",\\\"stateChan"
    ++ "geFieldsVersion\\\":1.0,\\\"stateInterface\\\":\\\"eno2\\\"}}\"},\"startsAt\":\"2018-02-16T14:06:5"
    ++ "4.024856417Z\"}]"

abbrev procevent_event : String
procevent_event =
    "[{\"labels\":{\"alertname\":\"collectd_procevent_gauge\",\"instance\":\"d60b3c68f23e\",\"procev"
    ++ "ent\":\"bla.py\",\"type\":\"process_status\",\"severity\":\"FAILURE\",\"service\":\"collectd\"},\"an"
    ++ "notations\":{\"summary\":\"\",\"ves\":\"{\\\"domain\\\":\\\"fault\\\",\\\"eventId\\\":3,\\\"eventName\\\":\\\""
    ++ "process bla.py (8537) down\\\",\\\"lastEpochMicrosec\\\":1518791119579620,\\\"priority\\\":\\\"h"
    ++ "igh\\\",\\\"reportingEntityName\\\":\\\"collectd procevent plugin\\\",\\\"sequence\\\":0,\\\"sourceN"
    ++ "ame\\\":\\\"bla.py\\\",\\\"startEpochMicrosec\\\":1518791111336973,\\\"version\\\":1.0,\\\"faultFiel"
    ++ "ds\\\":{\\\"alarmCondition\\\":\\\"process bla.py (8537) state change\\\",\\\"alarmInterfaceA\\\":"
    ++ "\\\"bla.py\\\",\\\"eventSeverity\\\":\\\"CRITICAL\\\",\\\"eventSourceType\\\":\\\"process\\\",\\\"faultFie"
    ++ "ldsVersion\\\":1.0,\\\"specificProblem\\\":\\\"process bla.py (8537) down\\\",\\\"vfStatus\\\":\\\"R"
    ++ "eady to terminate\\\"}}\"},\"startsAt\":\"2018-02-16T14:25:19.579573212Z\"}]"

abbrev octets_event : String
octets_event =
    "[{\"labels\":{\"alertname\":\"collectd_interface_if_octets\",\"instance\":\"localhost.localdo"
    ++ "main\",\"interface\":\"lo\",\"severity\":\"FAILURE\",\"service\":\"collectd\"},\"annotations\":{\"su"
    ++ "mmary\":\"Host localhost.localdomain, plugin interface (instance lo) type if_octets: D"
    ++ "ata source \\\"rx\\\" is currently 43596.224329. That is above the failure threshold of "
    ++ "0.000000.\",\"DataSource\":\"rx\",\"CurrentValue\":\"43596.2243286703\",\"WarningMin\":\"nan\",\"W"
    ++ "arningMax\":\"nan\",\"FailureMin\":\"nan\",\"FailureMax\":\"0\"},\"startsAt\":\"2019-09-18T21:11:1"
    ++ "9.281603240Z\"}]"

abbrev ovs_event : String
ovs_event =
    "[{\"labels\":{\"alertname\":\"collectd_ovs_events_gauge\",\"instance\":\"nfvha-comp-03\",\"ovs_"
    ++ "events\":\"br0\",\"type\":\"link_status\",\"severity\":\"OKAY\",\"service\":\"collectd\"},\"annotati"
    ++ "ons\":{\"summary\":\"link state of \\\"br0\\\" interface has been changed to \\\"UP\\\"\",\"uuid\":"
    ++ "\"c52f2aca-3cb1-48e3-bba3-100b54303d84\"},\"startsAt\":\"2018-02-22T20:12:19.547955618Z\"}"
    ++ "]"

abbrev check_event : String
check_event =
    "{\"labels\":{\"check\":\"elastic-check\",\"client\":\"wubba.lubba.dub.dub.redhat.com\",\"severi"
    ++ "ty\":\"FAILURE\"},\"annotations\":{\"command\":\"podman ps | grep elastic || exit 2\",\"durati"
    ++ "on\":0.043278607,\"executed\":1601900769,\"issued\":1601900769,\"output\":\"time=\\\"2020-10-0"
    ++ "5T14:26:09+02:00\\\" level=error msg=\\\"cannot mkdir /run/user/0/libpod: mkdir /run/use"
    ++ "r/0/libpod: permission denied\\\"\\n\",\"status\":2,\"ves\":\"{\\\"commonEventHeader\\\":{\\\"domai"
    ++ "n\\\":\\\"heartbeat\\\",\\\"eventType\\\":\\\"checkResult\\\",\\\"eventId\\\":\\\"wubba.lubba.dub.dub.re"
    ++ "dhat.com-elastic-check\\\",\\\"priority\\\":\\\"High\\\",\\\"reportingEntityId\\\":\\\"918e8d04-c5ae"
    ++ "-4e20-a763-8eb4f1af7c80\\\",\\\"reportingEntityName\\\":\\\"wubba.lubba.dub.dub.redhat.com\\\""
    ++ ",\\\"sourceId\\\":\\\"918e8d04-c5ae-4e20-a763-8eb4f1af7c80\\\",\\\"sourceName\\\":\\\"wubba.lubba."
    ++ "dub.dub.redhat.com-collectd-sensubility\\\",\\\"startingEpochMicrosec\\\":1601900769,\\\"las"
    ++ "tEpochMicrosec\\\":1601900769},\\\"heartbeatFields\\\":{\\\"additionalFields\\\":{\\\"check\\\":\\\""
    ++ "elastic-check\\\",\\\"command\\\":\\\"podman ps | grep elastic || exit 2 || $0\\\",\\\"duration\\"
    ++ "\":\\\"0.043279\\\",\\\"executed\\\":\\\"1601900769\\\",\\\"issued\\\":\\\"1601900769\\\",\\\"output\\\":\\\"ti"
    ++ "me=\\\\\\\"2020-10-05T14:26:09+02:00\\\\\\\" level=error msg=\\\\\\\"cannot mkdir /run/user/0/li"
    ++ "bpod: mkdir /run/user/0/libpod: permission denied\\\\\\\"\\\\n\\\",\\\"status\\\":\\\"2\\\"}}}\"},\"st"
    ++ "artsAt\":\"2020-10-05T14:26:09+02:00\"}"

abbrev pub event_messages : List String
event_messages =
    ceilometer_event ∷ connectivity_event ∷ procevent_event ∷ octets_event ∷ ovs_event ∷ check_event
    ∷ []

abbrev rtkit_log : String
rtkit_log =
    "\", \"host\":\"localhost\", \"severity\":\"7\", \"facility\":\"daemon\", \"tag\":\"rtkit-daemon[7346"
    ++ "91]:\", \"source\":\"rtkit-daemon\", \"message\":\"Supervising 0 threads of 0 processes of 0"
    ++ " users.\", \"file\":\"\", \"cloud\": \"cloud1\", \"region\": \"<region-name>\"}"

abbrev python_log : String
python_log =
    "\", \"host\":\"localhost\", \"severity\":\"5\", \"facility\":\"user\", \"tag\":\"python3[804440]:\", "
    ++ "\"source\":\"python3\", \"message\":\"detected unhandled Python exception in 'interactive m"
    ++ "ode (python -c ...)'\", \"file\":\"\", \"cloud\": \"cloud1\", \"region\": \"<region-name>\"}"

abbrev sudo_log : String
sudo_log =
    "\", \"host\":\"localhost\", \"severity\":\"1\", \"facility\":\"authpriv\", \"tag\":\"sudo[803493]:\","
    ++ " \"source\":\"sudo\", \"message\":\"   jarda : 1 incorrect password attempt ; TTY=pts\\/1 ; "
    ++ "PWD=\\/home\\/jarda\\/go\\/src\\/github.com\\/vyzigold\\/sg-core\\/plugins\\/application\\/lok"
    ++ "i ; USER=root ; COMMAND=\\/usr\\/bin\\/ls\", \"file\":\"\", \"cloud\": \"cloud1\", \"region\": \"<r"
    ++ "egion-name>\"}"

abbrev pub log_messages : List String
log_messages = rtkit_log ∷ python_log ∷ sudo_log ∷ []

abbrev pub ceilometer_message : String
ceilometer_message =
    "{\"request\": {\"oslo.version\": \"2.0\", \"oslo.message\": \"{\\\"message_id\\\": \\\"b6f21ada-846"
    ++ "5-49b8-9af2-fbf4c0ec1dbe\\\", \\\"publisher_id\\\": \\\"telemetry.publisher.controller-0.red"
    ++ "hat.local\\\", \\\"event_type\\\": \\\"metering\\\", \\\"priority\\\": \\\"SAMPLE\\\", \\\"payload\\\": [{"
    ++ "\\\"source\\\": \\\"openstack\\\", \\\"counter_name\\\": \\\"cpu\\\", \\\"counter_type\\\": \\\"cumulative"
    ++ "\\\", \\\"counter_unit\\\": \\\"ns\\\", \\\"counter_volume\\\": 347670000000, \\\"user_id\\\": \\\"581d4"
    ++ "d733fad4baebd0edecb5dc6b889\\\", \\\"project_id\\\": \\\"40390761eaf7414c8125917efc21024c\\\","
    ++ " \\\"resource_id\\\": \\\"db4aee71-6c98-4505-bdf2-36d987e32be7\\\", \\\"timestamp\\\": \\\"2021-02"
    ++ "-10T03:50:41.471813\\\", \\\"resource_metadata\\\": {\\\"display_name\\\": \\\"RED\\\", \\\"name\\\": "
    ++ "\\\"instance-00000004\\\", \\\"instance_id\\\": \\\"db4aee71-6c98-4505-bdf2-36d987e32be7\\\", \\\""
    ++ "instance_type\\\": \\\"m1.tiny\\\", \\\"host\\\": \\\"fad58495f1d0d88347ebef0a41f13c81081f1454ac"
    ++ "3ff61c711144d5\\\", \\\"instance_host\\\": \\\"compute-0.redhat.local\\\", \\\"flavor\\\": {\\\"id\\\""
    ++ ": \\\"beeaf8e5-2bda-4b3c-88ad-cf41ad4df149\\\", \\\"name\\\": \\\"m1.tiny\\\", \\\"vcpus\\\": 2, \\\"r"
    ++ "am\\\": 512, \\\"disk\\\": 1, \\\"ephemeral\\\": 0, \\\"swap\\\": 0}, \\\"status\\\": \\\"active\\\", \\\"st"
    ++ "ate\\\": \\\"running\\\", \\\"task_state\\\": \\\"\\\", \\\"image\\\": null, \\\"image_ref\\\": null, \\\"im"
    ++ "age_ref_url\\\": null, \\\"architecture\\\": \\\"x86_64\\\", \\\"os_type\\\": \\\"hvm\\\", \\\"vcpus\\\": "
    ++ "2, \\\"memory_mb\\\": 512, \\\"disk_gb\\\": 1, \\\"ephemeral_gb\\\": 0, \\\"root_gb\\\": 1, \\\"cpu_nu"
    ++ "mber\\\": 2}, \\\"message_id\\\": \\\"25286614-6b53-11eb-8d3e-525400c5aaec\\\", \\\"monotonic_ti"
    ++ "me\\\": null, \\\"message_signature\\\": \\\"2acacbd9c515743bdde5ba54a4ed42d3ecd63573aa1a00f"
    ++ "aacabecf720123d3f\\\"}], \\\"timestamp\\\": \\\"2021-02-11 21:43:11.180978\\\"}\"}, \"context\": "
    ++ "{}}"
