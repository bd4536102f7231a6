-- ===== src/Inventory/Help.antt =====
-- The text of `show_help` (lines 430 to 456 of inventory.py).
use factory_pattern_design.Base.{String}

abbrev pub help_text : String
help_text =
    "Usage: inventory.py ip1 [ip2 ...]\nExamples: inventory.py 10.10.1.3 10.10.1.4 10.10.1.5\n\nAvailable commands:\nhelp - Display this message\nprint_cfg - Write inventory file to stdout\nprint_ips - Write a space-delimited list of IPs from \"all\" group\nprint_hostnames - Write a space-delimited list of Hostnames from \"all\" group\nadd - Adds specified hosts into an already existing inventory\n\nAdvanced usage:\nCreate new or overwrite old inventory file: inventory.py 10.10.1.5\nAdd another host after initial creation: inventory.py add 10.10.1.6\nAdd range of hosts: inventory.py 10.10.1.3-10.10.1.5\nAdd hosts with different ip and access ip: inventory.py 10.0.0.1,192.168.10.1 10.0.0.2,192.168.10.2 10.0.0.3,192.168.10.3\nAdd hosts with a specific hostname, ip, and optional access ip: first,10.0.0.1,192.168.10.1 second,10.0.0.2 last,10.0.0.3\nDelete a host: inventory.py -10.10.1.3\nDelete a host by id: inventory.py -node1\n\nConfigurable env vars:\nDEBUG                   Enable debug printing. Default: True\nCONFIG_FILE             File to write config to Default: ./inventory/sample/hosts.yaml\nHOST_PREFIX             Host prefix for generated hosts. Default: node\nKUBE_CONTROL_HOSTS      Set the number of kube-control-planes. Default: 2\nSCALE_THRESHOLD         Separate ETCD role if # of nodes >= 50\nMASSIVE_SCALE_THRESHOLD Separate K8s control-plane and ETCD if # of nodes >= 200\n"
